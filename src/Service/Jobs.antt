-- ===== src/Service/Jobs.antt =====
-- The job record and the in-memory job store (internal/service/jobs.go). A method that mutates the
-- record returns the new record; its mutex makes each method one step. Times are nanoseconds, and
-- `none` is the zero time.
pub mod Sweep
use meme.Base.{
  ℕ, ◌++◌, ◌∷◌, [], List, Bool, true, false, not, ◌&&◌, ◌||◌, Option, none, some, ltb,
  if◌then◌else◌, ℤ, pos, eqb_ℤ, Text, codes, str_eq, has_suffix, Map, lookup, insert, keep, any,
}
use meme.Service.Capture.{capture_head, capture_tail, log_text}

pub data JobState : Type 0 where
  queued running succeeded failed : JobState

-- `Done`
unfoldable pub done : JobState → Bool
done succeeded = true
done failed = true
done _ = false

-- RunPlan of internal/target/target.go
pub record RunPlan : Type 0 where
  pub target : Text
  pub entrypoint : Text
  pub command : List Text
  pub work_dir : Text

-- RunResult of orchestrator.go; `F` is float64. An empty `error` is none.
pub record RunResult (F : Type 0) : Type 0 where
  pub target : Text
  pub index : ℕ
  pub input_dir : Text
  pub plan : RunPlan
  pub assigned : Map F
  pub stdout : Text
  pub stderr : Text
  pub exit_code : ℤ
  pub timed_out : Bool
  pub error : Text

-- `log` is the content of the file at `logPath`.
pub record JobRecord (F : Type 0) : Type 0 where
  pub id : Text
  pub target : Text
  pub state : JobState
  pub warnings : List Text
  pub results : List (RunResult F)
  pub err_msg : Text
  pub log : Text
  pub dir : Text
  pub created : Option ℕ
  pub started : Option ℕ
  pub finished : Option ℕ

abbrev pub newline : Text
newline = 10 ∷ []

finish_warnings : List Text → List Text → List Text
finish_warnings [] old = old
finish_warnings (w ∷ ws) old = w ∷ ws

module _ {F : Type 0} where
  unfoldable pub run_failed : RunResult F → Bool
  run_failed r = not (eqb_ℤ r.exit_code (pos 0)) || not (str_eq r.error [])

  unfoldable pub any_run_failed : List (RunResult F) → Bool
  any_run_failed = any run_failed

  -- `AppendLog`, where the file can be opened
  unfoldable pub append_log : Text → JobRecord F → JobRecord F
  append_log line j = record j {
    log = j.log ++ (if has_suffix line newline then line else line ++ newline);
  }

  -- `Start`
  unfoldable pub start : ℕ → JobRecord F → JobRecord F
  start now j = record j { state = running; started = some now }

  finish_state : Option Text → List (RunResult F) → JobState
  finish_state (some e) results = failed
  finish_state none results = if any_run_failed results then failed else succeeded

  finish_message : Option Text → List (RunResult F) → Text → Text
  finish_message (some e) results old = e
  finish_message none results old =
      if any_run_failed results then codes "one or more runs exited non-zero" else old

  -- `Finish`
  unfoldable pub finish :
      ℕ → List (RunResult F) → List Text → Option Text → JobRecord F → JobRecord F
  unfolding finish_warnings finish_state finish_message any_run_failed
  finish now results warnings err j = record j {
    results = results;
    warnings = finish_warnings warnings j.warnings;
    finished = some now;
    state = finish_state err results;
    err_msg = finish_message err results j.err_msg;
  }

-- JobView, the snapshot of the status endpoint
pub record JobView (F : Type 0) : Type 0 where
  pub id : Text
  pub target : Text
  pub state : JobState
  pub warnings : List Text
  pub error : Text
  pub runs : List (RunResult F)
  pub log : Text
  pub created : Option ℕ
  pub started : Option ℕ
  pub finished : Option ℕ

finished_before : ℕ → Option ℕ → Bool
finished_before cutoff none = false
finished_before cutoff (some t) = ltb t cutoff

module _ {F : Type 0} where
  -- `View`
  unfoldable pub view : Bool → JobRecord F → JobView F
  view include_log j = record {
    id = j.id;
    target = j.target;
    state = j.state;
    warnings = j.warnings;
    error = j.err_msg;
    runs = j.results;
    log = if include_log then log_text capture_head capture_tail j.log else [];
    created = j.created;
    started = j.started;
    finished = j.finished;
  }

  unfoldable pub done_before : ℕ → JobRecord F → Bool
  unfolding done finished_before
  done_before cutoff j = done j.state && finished_before cutoff j.finished

-- The map of the store, by job id.
abbrev pub JobStore : Type 0 → Type 0
JobStore F = Map (JobRecord F)

module _ {F : Type 0} where
  -- The record that `Create` makes; `id` is the random id.
  unfoldable pub new_record : Text → Text → Text → List Text → ℕ → JobRecord F
  new_record id target dir warnings now = record {
    id = id;
    target = target;
    state = queued;
    warnings = warnings;
    results = [];
    err_msg = [];
    log = [];
    dir = dir;
    created = some now;
    started = none;
    finished = none;
  }

  -- `Create`
  unfoldable pub create : Text → Text → Text → List Text → ℕ → JobStore F → JobStore F
  unfolding new_record
  create id target dir warnings now s = insert id (new_record id target dir warnings now) s

  -- `Get`
  unfoldable pub get : Text → JobStore F → Option (JobRecord F)
  get id s = lookup id s

  -- The directories that `sweep` removes from disk.
  unfoldable pub victim_dirs : ℕ → JobStore F → List Text
  victim_dirs cutoff [] = []
  victim_dirs cutoff ((id, j) ∷ s) =
      let rest = victim_dirs cutoff s in
      if done_before cutoff j && not (str_eq j.dir []) then j.dir ∷ rest else rest

  -- `sweep`: the store that is left, and the directories removed
  unfoldable pub sweep : ℕ → JobStore F → JobStore F × List Text
  unfolding victim_dirs
  sweep cutoff s = (keep (λ j. not (done_before cutoff j)) s, victim_dirs cutoff s)
