-- ===== src/Model/Validate/Limits/Names.antt =====
-- The names of constraints and emission limits are used once only.
use meme.Base.{
  ℕ, suc, ◌≡◌, inl, inr, false, not, ◌&&◌, List, [], ◌∷◌, ◌++◌, arith, All, map, if◌then◌else◌,
  Float64, Text, codes, str_eq, Bool-cases,
}
use meme.Model.Types.{Constraint, EmissionLimit, Model}
use meme.Model.Dates.{Dates}
use meme.Model.Checks.{report}
use meme.Model.Validate.{validate_model}
use meme.Model.Validate.Each.{
  seen_in, Distinct, append-nil_left, append-nil_right, report-nil_iff, fresh_before,
}
use meme.Model.Validate.Limits.{
  check_name, see_name, indexed, constraint_problems, each_constraint, constraint_names, each_limit,
}
use meme.Model.Validate.Parts.{validate_model-IsSound}

-- The names that are given: those that are not empty.
unfoldable pub given_names : List Text → List Text
given_names [] = []
given_names (n ∷ ns) = if str_eq n [] then given_names ns else n ∷ given_names ns

-- The names are distinct, and none was seen before.
abbrev pub Fresh : List Text → List Text → Type 0
Fresh seen ns = All (λ n. seen_in n seen ≡ false) ns × Distinct ns

-- One name more in front
Fresh-cons :
    (seen : List Text) (n : Text) (ns : List Text)
    → (not (str_eq n []) && seen_in n seen) ≡ false
    → Fresh (see_name seen n) (given_names ns)
    → Fresh seen (given_names (n ∷ ns))
unfolding see_name given_names
Fresh-cons seen n ns h fresh = elim (Bool-cases (str_eq n [])) [
  | inl e ↦ rw e (rw e at fresh)
  | inr e ↦
      let (fresh', distinct) : Fresh (n ∷ seen) (given_names ns) = rw e at fresh in
      let (before, absent) = fresh_before n seen (given_names ns) fresh' in
      rw e ((ground (arith, h), before), (absent, distinct))
]

module _ {F : Type 0} where
  limits-Fresh :
      (seen : List Text) (i : ℕ) (els : List (EmissionLimit F))
      → each_limit seen i els ≡ []
      → Fresh seen (given_names (map (λ el. el.name) els))
  unfolding each_limit check_name
  limits-Fresh seen i [] h = unfold given_names in (tt, tt)
  limits-Fresh seen i (el ∷ els) h =
      let place = indexed (codes "emission_limits") i in
      let rest = append-nil_right (report place (check_name seen el.name)) _ h in
      Fresh-cons seen el.name (map (λ x. x.name) els)
        ((report-nil_iff place _).0 (append-nil_left _ _ h)).0
        (limits-Fresh (see_name seen el.name) (suc i) els (append-nil_right _ _ rest))

  constraints-Fresh :
      (m : Model F) (seen : List Text) (i : ℕ) (cs : List (Constraint F))
      (els : List (EmissionLimit F))
      → each_constraint m seen i cs ≡ []
      → each_limit (constraint_names seen cs) 0 els ≡ []
      → Fresh seen (given_names (map (λ c. c.name) cs ++ map (λ el. el.name) els))
  unfolding each_constraint constraint_names check_name
  constraints-Fresh m seen i [] els h k = limits-Fresh seen 0 els k
  constraints-Fresh m seen i (c ∷ cs) els h k =
      let place = indexed (codes "constraints") i in
      let rest = append-nil_right (report place (check_name seen c.name)) _ h in
      Fresh-cons seen c.name (map (λ x. x.name) cs ++ map (λ el. el.name) els)
        ((report-nil_iff place _).0 (append-nil_left _ _ h)).0
        (constraints-Fresh m (see_name seen c.name) (suc i) cs els
          (append-nil_right (constraint_problems place m c) _ rest) k)

-- In a model that passes validation no name stands twice among those that the constraints and the
-- emission limits are given.
pub validate_model-names :
    (fl : Float64) (dates : Dates) (m : Model fl.F)
    → validate_model fl dates m ≡ []
    → Distinct
        (given_names (map (λ c. c.name) m.constraints ++ map (λ el. el.name) m.emission_limits))
validate_model-names fl dates m h =
    let s = validate_model-IsSound fl dates m h in
    (constraints-Fresh m [] 0 m.constraints m.emission_limits s.constraints s.limits).1
