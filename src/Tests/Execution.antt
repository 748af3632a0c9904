-- ===== src/Tests/Execution.antt =====
-- Job execution, the slots and the job store.
use meme.Base.{
  pos, ℕ, ◌≡◌, refl, ◌≤◌, ◌↔◌, inl, inr, true, false, some, List, [], ◌∷◌, arith, Text, codes,
  str_eq, lookup, insert, has_key, split, get_or_else, IsMap,
}
use meme.Model.Run.Sweeps.{expand_sweep}
use meme.Service.Jobs.{JobRecord, JobStore, succeeded, done, any_run_failed, get, sweep}
use meme.Service.Jobs.Sweep.{sweep_spares}
use meme.Service.Simulate.{simulate, run_each, one_run}
use meme.Service.Orchestrator.{
  apply_segments, apply_tech, apply_path, apply_assignment, expand_runs, expand_each, split_path,
}
use meme.Service.Executor.{execute, each_target, one_target, new_max_jobs}
use meme.Service.Executor.Outcome.{outcomes, all_results, AllFine, execute_lem}
use meme.Service.Executor.Slots.{
  waiting, running, Slots, new_executor, Turn, turn, acquire, submit, go_on, Reach, here, next,
  runners, runners_bounded,
}
use meme.Service.Executor.Deadlock.{execute-never_stuck}
use meme.Tests.Fixtures.{naturals, job, calls, queued_record}

abbrev both : List Text
both = codes "pypsa" ∷ codes "calliope" ∷ []

executed : JobRecord ℕ
unfolding execute simulate
executed = get_or_else (execute naturals calls 2 3 both job queued_record) queued_record

execute_lem_example :
    let outs = outcomes naturals calls true (codes "jobs") job both in
    (executed.results ≡ all_results naturals calls outs)
    × (done executed.state ≡ true)
    × (executed.started ≡ some 2)
    × (executed.finished ≡ some 3)
    × ((executed.state ≡ succeeded) ↔ (
        AllFine naturals calls outs × (any_run_failed (all_results naturals calls outs) ≡ false)))
unfolding executed execute each_target one_target simulate expand_runs expand_each expand_sweep
    apply_assignment apply_path apply_segments apply_tech split_path split lookup insert str_eq
    run_each one_run
execute_lem_example = execute_lem naturals calls 2 3 both job queued_record executed refl

abbrev finished_record : JobRecord ℕ
finished_record = record queued_record { state = succeeded; started = some 2; finished = some 3 }

abbrev store : JobStore ℕ
store = (codes "1f", finished_record) ∷ (codes "2e", queued_record) ∷ []

store-IsMap : IsMap store
unfolding has_key lookup str_eq
store-IsMap = (refl, (refl, tt))

sweep_spares_example : get (codes "2e") (sweep 5 store).0 ≡ some queued_record
unfolding get lookup str_eq done
sweep_spares_example = sweep_spares 5 (codes "2e") store queued_record store-IsMap refl (inl refl)

-- An executor with one slot, whose first call holds it while a second one waits.
busy : Slots
busy = record { max_jobs = 1; taken = 1; cancelled = false; calls = running ∷ waiting ∷ [] }

busy-Reach : Reach (new_executor (pos 1)) busy
unfolding new_executor new_max_jobs busy
busy-Reach =
    next (next (next here submit) submit)
      (go_on (turn [] (waiting ∷ []) waiting running 1 refl (acquire 0 (omega arith))))

runners_bounded_example : runners busy.calls ≤ new_max_jobs (pos 1)
runners_bounded_example = runners_bounded (pos 1) busy busy-Reach

execute-never_stuck_example : (t : Slots) × Turn busy t
unfolding busy
execute-never_stuck_example =
    execute-never_stuck (pos 1) busy waiting busy-Reach (inr (inl refl)) (λ e. cc)
