-- ===== src/Service/Simulate/Results.antt =====
-- The results of a simulation against its runs.
use meme.Base.{
  ℕ, ◌+◌, ◌≡◌, refl, Option, none, some, List, [], ◌∷◌, ◌++◌, arith, length, Float64, Text, codes,
  itoa, itoa_injective, append_cancel_left,
}
use meme.Model.Run.{Job}
use meme.Service.Jobs.{RunPlan, RunResult}
use meme.Service.Orchestrator.{ok, ExpandedRun, expand_runs}
use meme.Service.Simulate.{
  path_join, run_dirs, Result, good, bad, Calls, fine, failed, SimOutcome, label_result, RunEnd,
  run_error, run_done, after_plan, after_dirs, after_emit, one_run, continue_runs, run_each,
  after_expand, after_lookup, after_validate, simulate,
}

path_join_injective : (dir a b : Text) → path_join dir a ≡ path_join dir b → a ≡ b
unfolding path_join
path_join_injective [] a b h = h
path_join_injective (c ∷ dir) a b h =
    let e : b'/' ∷ a ≡ b'/' ∷ b = append_cancel_left (c ∷ dir) h in cc

run_name_injective : (i j : ℕ) → codes "run_" ++ itoa i ≡ codes "run_" ++ itoa j → i ≡ j
run_name_injective i j h = itoa_injective i j (append_cancel_left (codes "run_") h)

-- Two runs of a target share no run directory, for every base directory.
pub run_dirs_injective :
    (base : Text) (i j : ℕ) → (run_dirs base i).run_dir ≡ (run_dirs base j).run_dir → i ≡ j
unfolding run_dirs
run_dirs_injective base i j h =
    run_name_injective i j
      (path_join_injective base (codes "run_" ++ itoa i) (codes "run_" ++ itoa j) h)

module _ (fl : Float64) (calls : Calls fl) where
  open fl use {F}

  -- A result reports run `i`: the run's job was emitted into its input directory, its output directory was
  -- made, the target planned it, and the result is the one of the runner for that plan, under the run's
  -- labels.
  pub record IsReport (name base : Text) (i : ℕ) (r : ExpandedRun fl) (res : RunResult F)
      : Type 0 where
    pub entrypoint : Text
    pub emitted : calls.emit name r.job (run_dirs base i).input_dir ≡ good entrypoint
    pub made : calls.mkdirs (run_dirs base i).out_dir ≡ none
    pub command : RunPlan
    pub planned : calls.plan name r.job entrypoint (run_dirs base i) ≡ good command
    pub stdout : res.stdout ≡ (calls.run command).stdout
    pub stderr : res.stderr ≡ (calls.run command).stderr
    pub exit_code : res.exit_code ≡ (calls.run command).exit_code
    pub timed_out : res.timed_out ≡ (calls.run command).timed_out
    pub error : res.error ≡ (calls.run command).error
    pub plan : res.plan ≡ (calls.run command).plan
    pub target : res.target ≡ name
    pub index : res.index ≡ i
    pub input_dir : res.input_dir ≡ (run_dirs base i).input_dir
    pub assigned : res.assigned ≡ r.assignment

  -- The results report the first runs from run `i` on, in order.
  abbrev pub Reports : Text → Text → ℕ → List (ExpandedRun fl) → List (RunResult F) → Type 0
  Reports name base i runs [] = Unit
  Reports name base i [] (res ∷ results) = ⊥
  Reports name base i (r ∷ runs) (res ∷ results) =
      IsReport name base i r res × Reports name base (i + 1) runs results

  result_of :
      (res res' : RunResult F) (lines lines' : List Text)
      → ◌≡◌ {A = RunEnd fl calls} (run_done res lines) (run_done res' lines')
      → res ≡ res'
  result_of res res' lines lines' h = cc

  planned-IsReport :
      (name base : Text) (i : ℕ) (r : ExpandedRun fl) (res : RunResult F) (lines : List Text)
      (entrypoint : Text) (o : Result RunPlan)
      → calls.emit name r.job (run_dirs base i).input_dir ≡ good entrypoint
      → calls.mkdirs (run_dirs base i).out_dir ≡ none
      → calls.plan name r.job entrypoint (run_dirs base i) ≡ o
      → after_plan fl calls name i r.assignment (run_dirs base i) o ≡ run_done res lines
      → IsReport name base i r res
  unfolding after_plan label_result
  planned-IsReport name base i r res lines entrypoint (bad e) emitted made planned h = cc
  planned-IsReport name base i r res lines entrypoint (good p) emitted made planned h =
      let same = result_of _ res _ lines h in
      rw (← same) (record {
        entrypoint = entrypoint;
        emitted = emitted;
        made = made;
        command = p;
        planned = planned;
        stdout = refl;
        stderr = refl;
        exit_code = refl;
        timed_out = refl;
        error = refl;
        plan = refl;
        target = refl;
        index = refl;
        input_dir = refl;
        assigned = refl;
      })

  made-IsReport :
      (name base : Text) (i : ℕ) (r : ExpandedRun fl) (res : RunResult F) (lines : List Text)
      (entrypoint : Text) (o : Option Text)
      → calls.emit name r.job (run_dirs base i).input_dir ≡ good entrypoint
      → calls.mkdirs (run_dirs base i).out_dir ≡ o
      → after_dirs fl calls name i r (run_dirs base i) entrypoint o ≡ run_done res lines
      → IsReport name base i r res
  unfolding after_dirs
  made-IsReport name base i r res lines entrypoint (some e) emitted made h = cc
  made-IsReport name base i r res lines entrypoint none emitted made h =
      planned-IsReport name base i r res lines entrypoint _ emitted made refl h

  emitted-IsReport :
      (name base : Text) (i : ℕ) (r : ExpandedRun fl) (res : RunResult F) (lines : List Text)
      (o : Result Text)
      → calls.emit name r.job (run_dirs base i).input_dir ≡ o
      → after_emit fl calls name i r (run_dirs base i) o ≡ run_done res lines
      → IsReport name base i r res
  unfolding after_emit
  emitted-IsReport name base i r res lines (bad e) emitted h = cc
  emitted-IsReport name base i r res lines (good entrypoint) emitted h =
      made-IsReport name base i r res lines entrypoint _ emitted refl h

  one_run-IsReport :
      (name base : Text) (i : ℕ) (r : ExpandedRun fl) (res : RunResult F) (lines : List Text)
      → one_run fl calls name base i r ≡ run_done res lines
      → IsReport name base i r res
  unfolding one_run
  one_run-IsReport name base i r res lines h = emitted-IsReport name base i r res lines _ refl h

  continue_runs-Reports :
      (name base : Text) (warnings : List Text) (i : ℕ) (r : ExpandedRun fl)
      (runs : List (ExpandedRun fl)) (e : RunEnd fl calls) (start : Text) (rest : SimOutcome F)
      → one_run fl calls name base i r ≡ e
      → Reports name base (i + 1) runs rest.results
      → Reports name base i (r ∷ runs) (continue_runs fl calls warnings e start rest).results
  unfolding continue_runs
  continue_runs-Reports name base warnings i r runs (run_error e lines) start rest h reports = tt
  continue_runs-Reports name base warnings i r runs (run_done res lines) start rest h reports =
      (one_run-IsReport name base i r res lines h, reports)

  run_each-Reports :
      (name base : Text) (warnings : List Text) (i : ℕ) (runs : List (ExpandedRun fl))
      → Reports name base i runs (run_each fl calls name base warnings i runs).results
  unfolding run_each
  run_each-Reports name base warnings i [] = tt
  run_each-Reports name base warnings i (r ∷ runs) =
      continue_runs-Reports name base warnings i r runs (one_run fl calls name base i r) _ _ refl
        (run_each-Reports name base warnings (i + 1) runs)

  run_each_all :
      (name base : Text) (warnings : List Text) (i : ℕ) (runs : List (ExpandedRun fl))
      → (run_each fl calls name base warnings i runs).end ≡ fine
      → length (run_each fl calls name base warnings i runs).results ≡ length runs
  unfolding run_each continue_runs
  run_each_all name base warnings i [] h = refl
  run_each_all name base warnings i (r ∷ runs) h =
      ground (arith, run_each_all name base warnings (i + 1) runs)

  run_each-warnings :
      (name base : Text) (warnings : List Text) (i : ℕ) (runs : List (ExpandedRun fl))
      → (run_each fl calls name base warnings i runs).warnings ≡ warnings
  unfolding run_each continue_runs
  run_each-warnings name base warnings i [] = refl
  run_each-warnings name base warnings i (r ∷ runs) =
      ground (arith, run_each-warnings name base warnings (i + 1) runs)

  after_validate-none :
      (name base : Text) (p : Job F × List Text × Option Text)
      → p.2 ≡ none
      → after_validate fl calls name base p
        ≡ after_lookup fl calls name base p.0 p.1 (calls.target_known name)
  unfolding after_validate
  after_validate-none name base (j, warnings, none) h = refl
  after_validate-none name base (j, warnings, some e) h = cc

  -- What a simulation reports, for the runs that its sweep expands into: its results are those of the
  -- first runs, in order; each run with a result was emitted, given an output directory and planned, and
  -- its result is what the runner gave for that plan, labelled with the target, the run's index, its
  -- input directory and its assignment. If the simulation ends well, all runs have a result. The job is
  -- the one that validation leaves, and validation, the target's lookup and the expansion succeed.
  pub simulate-Reports :
      (j : Job F) (name base : Text) (runs : List (ExpandedRun fl))
      → (calls.validate name j).2 ≡ none
      → calls.target_known name ≡ none
      → expand_runs fl calls.clone_job (calls.validate name j).0 ≡ ok runs
      → let out = (simulate fl calls j name base).1 in
        Reports name base 0 runs out.results
        × (out.end ≡ fine → length out.results ≡ length runs)
        × (out.warnings ≡ (calls.validate name j).1)
  unfolding simulate after_lookup after_expand
  simulate-Reports j name base runs valid known expanded =
      let warnings = (calls.validate name j).1 in
      rw (after_validate-none name base (calls.validate name j) valid, known, expanded)
        (
          run_each-Reports name base warnings 0 runs,
          run_each_all name base warnings 0 runs,
          run_each-warnings name base warnings 0 runs,
        )

  -- A simulation that validation rejects runs nothing: it ends with the error of the validation.
  pub simulate_rejected :
      (j : Job F) (name base e : Text)
      → (calls.validate name j).2 ≡ some e
      → let out = (simulate fl calls j name base).1 in
        (out.results ≡ []) × (out.end ≡ failed e) × (out.warnings ≡ (calls.validate name j).1)
  unfolding simulate after_validate
  simulate_rejected j name base e h = ground arith
