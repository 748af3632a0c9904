-- ===== src/Service/Simulate.antt =====
-- `Orchestrator.Simulate` (internal/service/orchestrator.go): one target of one job. What it calls
-- outside the package (validation, the target's emitter and plan, directories, the runner) is the
-- record `Calls`.
pub mod Results
use meme.Base.{
  ℕ, ◌+◌, Bool, true, false, not, Option, none, some, List, [], ◌∷◌, ◌++◌, if◌then◌else◌, Float64,
  Text, codes, str_eq, trim_space, itoa, itoa_ℤ, join, length, Map,
}
use meme.Model.Run.{Job}
use meme.Service.Jobs.{RunPlan, RunResult}
use meme.Service.Orchestrator.{PathError, Outcome, ok, err, panic, ExpandedRun, expand_runs}

-- filepath.Join of a clean path and one name
unfoldable pub path_join : Text → Text → Text
path_join [] name = name
path_join (c ∷ dir) name = (c ∷ dir) ++ b'/' ∷ name

-- RunDirs of internal/target/target.go
pub record RunDirs : Type 0 where
  pub run_dir : Text
  pub input_dir : Text
  pub out_dir : Text

-- The directories of run `i` under `base`.
unfoldable pub run_dirs : Text → ℕ → RunDirs
unfolding path_join
run_dirs base i =
    let dir = path_join base (codes "run_" ++ itoa i) in
    record {
      run_dir = dir;
      input_dir = path_join dir (codes "input");
      out_dir = path_join dir (codes "output");
    }

-- A value or an error's text.
pub data Result {ℓ} (A : Type ℓ) : Type ℓ where
  good : A → Result A
  bad : Text → Result A

module _ (fl : Float64) where
  open fl use {F}

  -- `validate` returns the job with its inline series interned, the warnings and the error.
  -- `describe` is the text of a path error, wrapped as `sweep "<path>": …`.
  pub record Calls : Type 0 where
    pub validate : Text → Job F → Job F × List Text × Option Text
    pub target_known : Text → Option Text
    pub clone_job : Job F → Option (Job F)
    pub describe : PathError → Text
    pub emit : Text → Job F → Text → Result Text
    pub mkdirs : Text → Option Text
    pub plan : Text → Job F → Text → RunDirs → Result RunPlan
    pub run : RunPlan → RunResult F

-- How a simulation ends: well, with an error, or with a panic of the process.
pub data End : Type 0 where
  fine : End
  failed : Text → End
  crashed : End

pub record SimOutcome (F : Type 0) : Type 0 where
  pub results : List (RunResult F)
  pub warnings : List Text
  pub end : End
  pub log : List Text

abbrev pub run_label : ℕ → Text
run_label i = codes "run " ++ itoa i

module _ (fl : Float64) (calls : Calls fl) where
  open fl use {F}
  open calls use {validate, target_known, clone_job, describe, emit, mkdirs, plan, run}

  -- The log lines behind a run.
  pub run_log : ℕ → RunResult F → List Text
  run_log i res =
      let output = trim_space res.stdout in
      ((run_label i ++ codes ": exit=" ++ itoa_ℤ res.exit_code) ∷ [])
      ++ (if str_eq output [] then [] else (run_label i ++ codes " output:\n" ++ output) ∷ [])
      ++ (if str_eq res.error [] then [] else (run_label i ++ codes " error: " ++ res.error) ∷ [])

  -- The fields of the runner's result that `Simulate` sets.
  unfoldable pub label_result : Text → ℕ → Text → Map F → RunResult F → RunResult F
  label_result name i input_dir assigned res = record res {
    target = name;
    index = i;
    input_dir = input_dir;
    assigned = assigned;
  }

  -- What one run comes to: an error, with what was logged, or a result.
  pub data RunEnd : Type 0 where
    run_error : Text → List Text → RunEnd
    run_done : RunResult F → List Text → RunEnd

  after_plan : Text → ℕ → Map F → RunDirs → Result RunPlan → RunEnd
  unfolding run_log label_result
  after_plan name i assigned dirs (bad e) = run_error (run_label i ++ codes " plan: " ++ e) []
  after_plan name i assigned dirs (good p) =
      let res = label_result name i dirs.input_dir assigned (run p) in
      run_done res ((run_label i ++ codes ": " ++ join p.command b' ') ∷ run_log i res)

  after_dirs : Text → ℕ → ExpandedRun fl → RunDirs → Text → Option Text → RunEnd
  unfolding after_plan
  after_dirs name i r dirs entrypoint (some e) =
      run_error (run_label i ++ codes " output dir: " ++ e) []
  after_dirs name i r dirs entrypoint none =
      after_plan name i r.assignment dirs (plan name r.job entrypoint dirs)

  after_emit : Text → ℕ → ExpandedRun fl → RunDirs → Result Text → RunEnd
  unfolding after_dirs
  after_emit name i r dirs (bad e) = run_error (run_label i ++ codes " emit: " ++ e) []
  after_emit name i r dirs (good entrypoint) =
      after_dirs name i r dirs entrypoint (mkdirs dirs.out_dir)

  -- One round of the loop over the runs.
  unfoldable pub one_run : Text → Text → ℕ → ExpandedRun fl → RunEnd
  unfolding after_emit
  one_run name base i r =
      let dirs = run_dirs base i in after_emit name i r dirs (emit name r.job dirs.input_dir)

  abbrev emitting : Text → ℕ → Text
  emitting name i = run_label i ++ codes ": emitting " ++ name ++ codes " files"

  continue_runs : List Text → RunEnd → Text → SimOutcome F → SimOutcome F
  continue_runs warnings (run_error e lines) start rest = record {
    results = [];
    warnings = warnings;
    end = failed e;
    log = start ∷ lines;
  }
  continue_runs warnings (run_done res lines) start rest = record rest {
    results = res ∷ rest.results;
    log = start ∷ (lines ++ rest.log);
  }

  -- The loop over the runs from run `i` on; an error ends it, and the results so far stay.
  unfoldable pub run_each : Text → Text → List Text → ℕ → List (ExpandedRun fl) → SimOutcome F
  unfolding continue_runs
  run_each name base warnings i [] = record {
    results = [];
    warnings = warnings;
    end = fine;
    log = codes "all runs complete" ∷ [];
  }
  run_each name base warnings i (r ∷ runs) =
      let rest = run_each name base warnings (i + 1) runs in
      continue_runs warnings (one_run name base i r) (emitting name i) rest

  no_runs : List Text → End → SimOutcome F
  no_runs warnings end = record { results = []; warnings = warnings; end = end; log = [] }

  after_expand : Text → Text → List Text → Outcome (List (ExpandedRun fl)) → SimOutcome F
  unfolding no_runs
  after_expand name base warnings (err e) = no_runs warnings (failed (describe e))
  after_expand name base warnings panic = no_runs warnings crashed
  after_expand name base warnings (ok runs) =
      let out = run_each name base warnings 0 runs in
      record out {
        log =
            (codes "validated ok ("
              ++ itoa (length warnings)
              ++ codes " warning(s)); expanded into "
              ++ itoa (length runs)
              ++ codes " run(s)")
            ∷ out.log;
      }

  after_lookup : Text → Text → Job F → List Text → Option Text → SimOutcome F
  unfolding after_expand no_runs
  after_lookup name base j warnings (some e) = no_runs warnings (failed e)
  after_lookup name base j warnings none =
      after_expand name base warnings (expand_runs fl clone_job j)

  after_validate : Text → Text → Job F × List Text × Option Text → SimOutcome F
  unfolding after_lookup no_runs
  after_validate name base (j, warnings, some e) = no_runs warnings (failed e)
  after_validate name base (j, warnings, none) =
      after_lookup name base j warnings (target_known name)

  -- `Simulate`: the job as validation leaves it, and the outcome
  unfoldable pub simulate : Job F → Text → Text → Job F × SimOutcome F
  unfolding after_validate
  simulate j name base =
      let checked = validate name j in (checked.0, after_validate name base checked)
