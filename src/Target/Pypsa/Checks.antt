-- ===== src/Target/Pypsa/Checks.antt =====
-- `ValidateJob` of internal/target/pypsa/pypsa.go: what the PyPSA target rejects. The code returns at the
-- first check that fails, without warnings: the error is the head of the list of problems.
pub mod Fields
pub mod Dropped
pub mod Runs
pub mod Modes
pub mod Encodable
pub mod Runnable
pub mod Accepted
use meme.Base.{not, List, [], ◌∷◌, ◌++◌, Float64, Text, codes}
use meme.Model.Types.{Transmission, Model}
use meme.Model.Run.{Job}
use meme.Model.Run.Modes.{effective_mode}
use meme.Model.Checks.{Problem, report, given}
use meme.Model.Validate.Each.{each, each_entry}
use meme.Emit.Capex.{Powers}
use meme.Target.Gates.{Verdict}
use meme.Target.Gates.Warnings.{first_or}
use meme.Target.Pypsa.Costs.{transmission_capital_cost}
use meme.Target.Pypsa.Checks.Fields.{
  arc_place, field_problems, systemwide_problems, storage_problems, arc_field_problems,
}
use meme.Target.Pypsa.Checks.Dropped.{field_warnings, dropped_warnings, trade_warnings}
use meme.Target.Pypsa.Checks.Runs.{
  purchase_problems, subset_problems, solver_problems, switch_problems, switch_warnings,
  accounting_problems, solver_warnings,
}
use meme.Target.Pypsa.Checks.Modes.{mode_problems, mode_warnings, scope_problems, planning_problems}

module _ (fl : Float64) where
  open fl use {F}

  -- The checks of the run, in order
  unfoldable pub run_problems : Job F → List Problem
  run_problems j =
      subset_problems j.model
      ++ (each_entry purchase_problems j.model.technologies
          ++ (mode_problems fl j
              ++ (each (scope_problems fl) j.model.constraints
                  ++ (switch_problems j.experiment
                      ++ (solver_problems j
                          ++ (planning_problems fl j ++ accounting_problems j.experiment))))))

  -- The checks of the components' fields, in order
  unfoldable pub component_problems : Job F → List Problem
  component_problems j =
      let mode = effective_mode j.experiment in
      each_entry field_problems j.model.technologies
      ++ (each_entry (systemwide_problems mode) j.model.technologies
          ++ (each_entry (storage_problems mode) j.model.technologies
              ++ each_entry arc_field_problems j.model.transmission))

  -- All checks, in order
  unfoldable pub job_problems : Job F → List Problem
  job_problems j = run_problems j ++ component_problems j

  module _ (ps : Powers fl) where
    -- The warning about an investment that cannot be annualized
    unfoldable pub cost_warnings : Model F → Text → Transmission F → List Problem
    cost_warnings m id l = report (arc_place id) (
        (
          not (given (transmission_capital_cost fl ps m l)),
          codes
              "the investment cost needs lifetime and interest_rate (or cost_basis annualized) to annualize; not emitted",
        )
        ∷ [])

    -- All warnings, in order
    unfoldable pub job_warnings : Job F → List Problem
    job_warnings j =
        mode_warnings fl j
        ++ (each_entry (cost_warnings j.model) j.model.transmission
            ++ (switch_warnings j
                ++ (each_entry field_warnings j.model.technologies
                    ++ (each_entry dropped_warnings j.model.technologies
                        ++ (each_entry trade_warnings j.model.trade
                            ++ solver_warnings j.experiment.solver)))))

    -- `ValidateJob`
    unfoldable pub validate_job : Job F → Verdict
    validate_job j = first_or fl (job_problems j) (job_warnings j)
