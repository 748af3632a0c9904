-- ===== src/Service/Executor/Outcome.antt =====
-- What becomes of a job that `Execute` (internal/service/executor.go) runs.
use meme.Base.{
  ℕ, ◌≡◌, refl, sym, ap, ◌∙◌, ◌↔◌, Bool, true, false, Option, some_injective, none, some, List, [],
  ◌∷◌, ◌++◌, arith, append_assoc, append-nil, ltb, length, All, Float64, Text,
}
use mathlib.Core.Path.{subst, subst₂}
use meme.Model.Run.{Job}
use meme.Service.Jobs.{
  RunResult, JobRecord, append_log, start, finish, succeeded, done, any_run_failed,
}
use meme.Service.Simulate.{Calls, End, fine, failed, crashed, SimOutcome, simulate}
use meme.Service.Executor.{
  Progress, append_logs, keep_first, target_base, header, settle, one_target, then_targets,
  each_target, finish_progress, execute,
}

-- `Finish` ends a job, as succeeded exactly without an error and a failed run.
finish-state :
    {F : Type 0} (later : ℕ) (results : List (RunResult F)) (warns : List Text) (err : Option Text)
    (j : JobRecord F)
    → let j' = finish later results warns err j in
      (done j'.state ≡ true)
      × (j'.started ≡ j.started)
      × (j'.finished ≡ some later)
      × ((j'.state ≡ succeeded) ↔ ((err ≡ none) × (any_run_failed results ≡ false)))
unfolding finish done
finish-state later results warns none j = ground arith
finish-state later results warns (some e) j = ground arith

module _ (fl : Float64) (calls : Calls fl) where
  open fl use {F}

  -- The simulations that a job's targets come to, one after another, each on the job that the
  -- validation of the one before left, under the job's directory.
  pub outcomes : Bool → Text → Job F → List Text → List (SimOutcome F)
  outcomes multi dir job [] = []
  outcomes multi dir job (name ∷ names) =
      let (job', out) = simulate fl calls job name (target_base multi name dir) in
      out ∷ outcomes multi dir job' names

  abbrev pub all_results : List (SimOutcome F) → List (RunResult F)
  all_results [] = []
  all_results (o ∷ os) = o.results ++ all_results os

  -- No simulation ended with an error.
  abbrev pub AllFine : List (SimOutcome F) → Type 0
  AllFine = All (λ o. o.end ≡ fine)

  -- Appending to the log keeps the directory and the start.
  append_logs_keeps :
      (lines : List Text) (j : JobRecord F)
      → ((append_logs lines j).dir ≡ j.dir) × ((append_logs lines j).started ≡ j.started)
  unfolding append_logs append_log
  append_logs_keeps [] j = (refl, refl)
  append_logs_keeps (l ∷ lines) j = append_logs_keeps lines (append_log l j)

  -- What rounds of the loop do to its variables, given their outcomes.
  record Ran (outs : List (SimOutcome F)) (p q : Progress F) : Type 0 where
    all : q.all ≡ p.all ++ all_results outs
    dir : q.record_now.dir ≡ p.record_now.dir
    started : q.record_now.started ≡ p.record_now.started
    no_error : (q.first_err ≡ none) ↔ ((p.first_err ≡ none) × AllFine outs)

  settle_keeps :
      (name : Text) (e : End) (p q : Progress F)
      → settle fl calls name e p ≡ some q
      → (q.all ≡ p.all)
        × (q.job ≡ p.job)
        × (q.record_now.dir ≡ p.record_now.dir)
        × (q.record_now.started ≡ p.record_now.started)
        × ((q.first_err ≡ none) ↔ ((p.first_err ≡ none) × (e ≡ fine)))
  unfolding settle append_log keep_first
  settle_keeps name fine p q h = ground arith
  settle_keeps name (failed x) p q h = ground arith
  settle_keeps name crashed p q h = cc

  header_keeps :
      (multi : Bool) (name : Text) (j : JobRecord F)
      → ((header fl calls multi name j).dir ≡ j.dir)
        × ((header fl calls multi name j).started ≡ j.started)
  unfolding header append_log
  header_keeps multi name j = ground arith

  -- What one simulation adds to the variables, once its log is appended.
  settle-Ran :
      (name : Text) (out : SimOutcome F) (p p' q : Progress F)
      → p'.all ≡ p.all ++ out.results
      → p'.record_now.dir ≡ p.record_now.dir
      → p'.record_now.started ≡ p.record_now.started
      → p'.first_err ≡ p.first_err
      → settle fl calls name out.end p' ≡ some q
      → Ran (out ∷ []) p q × (q.job ≡ p'.job)
  settle-Ran name out p p' q all dir started first h =
      let (all', job', dir', started', no_error) = settle_keeps name out.end p' q h in
      (
        record {
          all = all' ∙ all ∙ ap (λ rs. p.all ++ rs) (sym (append-nil out.results));
          dir = dir' ∙ dir;
          started = started' ∙ started;
          no_error = (
            λ e. let (a, b) = no_error.0 e in (sym first ∙ a, (b, tt)),
            λ (a, (b, _)). no_error.1 (first ∙ a, b),
          );
        },
        job',
      )

  one_target-Ran :
      (multi : Bool) (name : Text) (p q : Progress F)
      → one_target fl calls multi name p ≡ some q
      → let (job', out) = simulate fl calls p.job name (target_base multi name p.record_now.dir) in
        Ran (out ∷ []) p q × (q.job ≡ job')
  unfolding one_target
  one_target-Ran multi name p q h =
      let (job', out) = simulate fl calls p.job name (target_base multi name p.record_now.dir) in
      let j = header fl calls multi name p.record_now in
      let (dir, started) = append_logs_keeps out.log j in
      let (dir', started') = header_keeps multi name p.record_now in
      settle-Ran name out p _ q refl (dir ∙ dir') (started ∙ started') refl h

  Ran-trans :
      (os : List (SimOutcome F)) (o : SimOutcome F) (p q r : Progress F)
      → Ran (o ∷ []) p q
      → Ran os q r
      → Ran (o ∷ os) p r
  Ran-trans os o p q r x y = record {
    all =
        y.all
        ∙ ap (λ rs. rs ++ all_results os) x.all
        ∙ append_assoc p.all (o.results ++ []) (all_results os)
        ∙ ap (λ rs. p.all ++ (rs ++ all_results os)) (append-nil o.results);
    dir = y.dir ∙ x.dir;
    started = y.started ∙ x.started;
    no_error = (
      λ e. let (a, bs) = y.no_error.0 e in let (c, (b, _)) = x.no_error.0 a in (c, (b, bs)),
      λ (c, (b, bs)). y.no_error.1 (x.no_error.1 (c, (b, tt)), bs),
    );
  }

  -- A round, and what the rounds after it do.
  then_targets-Ran :
      (multi : Bool) (name : Text) (names : List Text) (p q : Progress F) (o : Option (Progress F))
      → ((r : Progress F)
          → each_target fl calls multi names r ≡ some q
          → Ran (outcomes multi r.record_now.dir r.job names) r q)
      → one_target fl calls multi name p ≡ o
      → then_targets fl calls o (each_target fl calls multi names) ≡ some q
      → Ran (outcomes multi p.record_now.dir p.job (name ∷ names)) p q
  unfolding outcomes then_targets
  then_targets-Ran multi name names p q none rest first h = ground arith
  then_targets-Ran multi name names p q (some r) rest first h =
      let dir = p.record_now.dir in
      let sim = simulate fl calls p.job name (target_base multi name dir) in
      let (x, job') = one_target-Ran multi name p r first in
      Ran-trans (outcomes multi dir sim.0 names) sim.1 p r q x
        (subst₂ (λ d job. Ran (outcomes multi d job names) r q) x.dir job' (rest r h))

  each_target-Ran :
      (multi : Bool) (names : List Text) (p q : Progress F)
      → each_target fl calls multi names p ≡ some q
      → Ran (outcomes multi p.record_now.dir p.job names) p q
  unfolding each_target outcomes
  each_target-Ran multi [] p q h =
      let same : p ≡ q = some_injective h in
      subst (Ran [] p) same (record {
        all = sym (append-nil p.all);
        dir = refl;
        started = refl;
        no_error = (λ e. (e, tt), λ (e, _). e);
      })
  each_target-Ran multi (name ∷ names) p q h =
      then_targets-Ran multi name names p q _ (λ r. each_target-Ran multi names r q) refl h

  -- A job that ends done, in the span given, with the results of the simulations.
  abbrev EndsWith : ℕ → ℕ → List (SimOutcome F) → JobRecord F → Type 0
  EndsWith now later outs j =
      (j.results ≡ all_results outs)
      × (done j.state ≡ true)
      × (j.started ≡ some now)
      × (j.finished ≡ some later)
      × ((j.state ≡ succeeded) ↔ (AllFine outs × (any_run_failed (all_results outs) ≡ false)))

  finish-Ran :
      (now later : ℕ) (outs : List (SimOutcome F)) (p q : Progress F)
      → p.all ≡ []
      → p.first_err ≡ none
      → p.record_now.started ≡ some now
      → Ran outs p q
      → EndsWith now later outs (finish later q.all q.warns q.first_err q.record_now)
  unfolding finish
  finish-Ran now later outs p q empty no_err started_now ran =
      let all : q.all ≡ all_results outs = ran.all ∙ ap (λ rs. rs ++ all_results outs) empty in
      let (done_now, started, finished, state) =
        finish-state later q.all q.warns q.first_err q.record_now in
      (
        all,
        done_now,
        started ∙ ran.started ∙ started_now,
        finished,
        (
          λ e. let (a, b) = state.0 e in ((ran.no_error.0 a).1, sym (ap any_run_failed all) ∙ b),
          λ (a, b). state.1 (ran.no_error.1 (no_err, a), ap any_run_failed all ∙ b),
        ),
      )

  finish_progress-EndsWith :
      (now later : ℕ) (outs : List (SimOutcome F)) (o : Option (Progress F)) (rec' : JobRecord F)
      → ((q : Progress F)
          → o ≡ some q
          → EndsWith now later outs (finish later q.all q.warns q.first_err q.record_now))
      → finish_progress fl calls later o ≡ some rec'
      → EndsWith now later outs rec'
  unfolding finish_progress
  finish_progress-EndsWith now later outs none rec' ends h = ground arith
  finish_progress-EndsWith now later outs (some q) rec' ends h =
      subst (EndsWith now later outs) (some_injective h) (ends q refl)

  -- A job whose execution is not cut off by a panic ends done, from the start to the finish it is
  -- given, with the results of all its targets' simulations in the order of the targets; and it is
  -- said to have succeeded exactly if no simulation ended with an error and no run failed.
  pub execute_lem :
      (now later : ℕ) (targets : List Text) (job : Job F) (rec rec' : JobRecord F)
      → execute fl calls now later targets job rec ≡ some rec'
      → let outs = outcomes (ltb 1 (length targets)) rec.dir job targets in
        (rec'.results ≡ all_results outs)
        × (done rec'.state ≡ true)
        × (rec'.started ≡ some now)
        × (rec'.finished ≡ some later)
        × ((rec'.state ≡ succeeded) ↔ (AllFine outs × (any_run_failed (all_results outs) ≡ false)))
  unfolding execute start
  execute_lem now later targets job rec rec' h =
      let p0 : Progress F = record {
        record_now = start now rec;
        job = job;
        all = [];
        warns = [];
        first_err = none;
      } in
      finish_progress-EndsWith now later (outcomes (ltb 1 (length targets)) rec.dir job targets) _
        rec'
        (λ q left.
          finish-Ran now later _ p0 q refl refl refl
            (each_target-Ran (ltb 1 (length targets)) targets p0 q left))
        h
