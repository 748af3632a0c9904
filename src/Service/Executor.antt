-- ===== src/Service/Executor.antt =====
-- `Executor.Execute` (internal/service/executor.go): the targets of one job in turn. What the
-- semaphore does across jobs is in `Slots`.
pub mod Outcome
pub mod Slots
pub mod Deadlock
use meme.Base.{
  ℕ, ℤ, pos, negsuc, ◌<◌, Bool, true, false, Option, none, some, List, [], ◌∷◌, ◌++◌, map,
  if◌then◌else◌, ltb, length, Float64, Text, codes, get_or_else,
}
use meme.Model.Run.{Job}
use meme.Service.Jobs.{RunResult, JobRecord, append_log, start, finish}
use meme.Service.Simulate.{path_join, Calls, End, fine, failed, crashed, SimOutcome, simulate}

-- `NewExecutor`: at least one slot, two by default
unfoldable pub new_max_jobs : ℤ → ℕ
new_max_jobs (pos n) = if ltb 0 n then n else 2
new_max_jobs (negsuc n) = 2

-- `prefixWarnings`
unfoldable pub prefix_warnings : Text → List Text → Bool → List Text
prefix_warnings name warns multi = if multi then map (λ w. name ++ codes ": " ++ w) warns else warns

-- The variables of `Execute`'s loop.
pub record Progress (F : Type 0) : Type 0 where
  pub record_now : JobRecord F
  pub job : Job F
  pub all : List (RunResult F)
  pub warns : List Text
  pub first_err : Option Text

module _ {F : Type 0} where
  unfoldable pub append_logs : List Text → JobRecord F → JobRecord F
  append_logs [] j = j
  append_logs (l ∷ lines) j = append_logs lines (append_log l j)

-- The first error is kept.
unfoldable pub keep_first : Option Text → Text → Option Text
keep_first none e = some e
keep_first (some old) e = some old

-- The base directory of a target's runs: a directory of its own where there are several targets.
unfoldable pub target_base : Bool → Text → Text → Text
target_base multi name dir = if multi then path_join dir name else dir

module _ (fl : Float64) (calls : Calls fl) where
  open fl use {F}

  header : Bool → Text → JobRecord F → JobRecord F
  header multi name j =
      if multi then append_log (codes "=== target " ++ name ++ codes " ===") j else j

  -- What a round leaves, by how the simulation ended: a panic takes the process down.
  unfoldable pub settle : Text → End → Progress F → Option (Progress F)
  settle name fine p = some p
  settle name (failed e) p = some (record p {
    record_now = append_log (codes "target " ++ name ++ codes " failed: " ++ e) p.record_now;
    first_err = keep_first p.first_err (name ++ codes ": " ++ e);
  })
  settle name crashed p = none

  -- One round of the loop over the targets.
  unfoldable pub one_target : Bool → Text → Progress F → Option (Progress F)
  unfolding target_base header settle
  one_target multi name p =
      let (job, out) = simulate fl calls p.job name (target_base multi name p.record_now.dir) in
      settle name out.end (record p {
        record_now = append_logs out.log (header multi name p.record_now);
        job = job;
        all = p.all ++ out.results;
        warns = p.warns ++ prefix_warnings name out.warnings multi;
      })

  then_targets : Option (Progress F) → (Progress F → Option (Progress F)) → Option (Progress F)
  then_targets none f = none
  then_targets (some p) f = f p

  unfoldable pub each_target : Bool → List Text → Progress F → Option (Progress F)
  unfolding then_targets
  each_target multi [] p = some p
  each_target multi (name ∷ names) p =
      then_targets (one_target multi name p) (each_target multi names)

  finish_progress : ℕ → Option (Progress F) → Option (JobRecord F)
  finish_progress later none = none
  finish_progress later (some p) = some (finish later p.all p.warns p.first_err p.record_now)

  -- `Execute` once it holds a slot, started at `now` and finished at `later`; `none` is a panic. The
  -- file results.json is not modelled.
  unfoldable pub execute : ℕ → ℕ → List Text → Job F → JobRecord F → Option (JobRecord F)
  unfolding finish_progress
  execute now later targets job rec = finish_progress later (
      each_target (ltb 1 (length targets)) targets
        (record { record_now = start now rec; job = job; all = []; warns = []; first_err = none }))

  -- `Execute` whose context is cancelled while it waits for a slot
  pub abort : ℕ → Text → JobRecord F → JobRecord F
  abort now reason rec = finish now [] [] (some (codes "job aborted before start: " ++ reason)) rec
