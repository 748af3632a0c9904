-- ===== src/Target/Pipeline/Again.antt =====
-- `ValidateFor` on a job that it accepted before: the handlers and `Simulate` check one job several
-- times.
use meme.Base.{◌≡◌, ap, ap₂, ◌∙◌, sym, Option, none, some, Float64, Text}
use meme.Model.Dates.{Dates}
use meme.Model.Types.{Model}
use meme.Model.Run.{Job}
use meme.Model.Intern.{intern_inline_series}
use meme.Model.Intern.Interned.{intern_inline_series-Interned, intern_inline_series_idem}
use meme.Target.Registry.{Target, Registry, for_target}
use meme.Target.Pipeline.{Hooks, after_intern, for_known, validate_for}
use meme.Target.Pipeline.Accepted.{intern_job, intern-IsAccepted}

module _ (fl : Float64) (dates : Dates) where
  open fl use {F}

  module _ (hooks : Hooks F) (r : Registry) where
    known_again :
        (name : Text) (j : Job F) (o : Option Target)
        → (for_known fl dates hooks r name j o).2 ≡ none
        → (intern_inline_series (for_known fl dates hooks r name j o).0.model).1 ≡ none
        → for_known fl dates hooks r name (for_known fl dates hooks r name j o).0 o
          ≡ for_known fl dates hooks r name j o
    unfolding for_known
    known_again name j none h bad = cc
    known_again name j (some t) h bad =
        let j' : Job F = record j { model = (intern_inline_series j.model).0 } in
        let e : Option Text = (intern_inline_series j.model).1 in
        let same : (after_intern fl dates hooks r t j' e).0 ≡ j' =
          intern_job fl dates hooks r t j' e in
        let clean : (intern_inline_series j'.model).1 ≡ none =
          sym (ap (λ x. (intern_inline_series x.model).1) same) ∙ bad in
        let first : e ≡ none =
          (intern-IsAccepted fl dates hooks r t j' e (intern_inline_series-Interned j.model).0
            h).0 in
        ap (λ x. for_known fl dates hooks r name x (some t)) same
        ∙ ap₂ {A = Model F} {B = Option Text}
            (λ m b. after_intern fl dates hooks r t (record j { model = m }) b)
            (intern_inline_series_idem j.model) (clean ∙ sym first)

    -- A job that `ValidateFor` accepts is accepted again for the same target, with the same warnings,
    -- unless its own interned series are then rejected as names that nothing refers to.
    pub validate_for-again :
        (j : Job F) (name : Text)
        → (validate_for fl dates hooks r j name).2 ≡ none
        → (intern_inline_series (validate_for fl dates hooks r j name).0.model).1 ≡ none
        → validate_for fl dates hooks r (validate_for fl dates hooks r j name).0 name
          ≡ validate_for fl dates hooks r j name
    unfolding validate_for
    validate_for-again j name h bad = known_again name j (for_target r name) h bad
