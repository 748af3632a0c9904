-- ===== src/Model/Run/Validate/Accepted.antt =====
-- What an experiment that passes validation may ask for.
use meme.Base.{
  ℕ, ◌≤◌, ◌≡◌, ◌≢◌, refl, Bool, true, false, not, ◌&&◌, Option, none, some, List, [], ◌∷◌, arith,
  All, all, leb, length, Float64, codes, str_eq, str_eq_iff, some_injective, ap,
}
use meme.Model.Enums.{linear_power_flow}
use meme.Model.Run.{SweepAxis, SecurityOptions, NetworkOptions, Experiment}
use meme.Model.Run.Modes.{plan_mode, effective_mode, effective_network}
use meme.Model.Run.Sweeps.{max_sweep_runs, axis_valid, sweep_valid, count_runs, expand_sweep}
use meme.Model.Run.Sweeps.Count.{sweep_valid_bounds}
use meme.Model.Run.Validate.{
  axis_checks, cap_checks, sweep_problems, security_checks, network_checks, enum_checks,
  option_checks, power_flow_checks, monte_carlo_checks, solver_checks, scenario_checks,
  validate_experiment,
}
use meme.Model.Checks.{report}
use meme.Model.Validate.Each.{
  each, append-nil_left, append-nil_right, report-nil_iff, each-nil_iff, true_of_not,
}
use meme.Model.Validate.Techs.{no_element}

has_element : {A : Type 0} (xs : List A) → no_element xs ≡ false → leb 1 (length xs) ≡ true
has_element [] h = cc
has_element (x ∷ xs) h = ground arith

cap_ok :
    (runs : ℕ) (overflowed : Bool)
    → report (codes "experiment") (cap_checks (runs, overflowed)) ≡ []
    → (not overflowed && leb runs max_sweep_runs) ≡ true
unfolding cap_checks
cap_ok runs overflowed h =
    let (a, (b, _)) = (report-nil_iff (codes "experiment") _).0 h in ground arith

module _ {F : Type 0} where
  axes-valid :
      (axes : List (SweepAxis F))
      → All (λ axis. report (codes "experiment") (axis_checks axis) ≡ []) axes
      → all axis_valid axes ≡ true
  unfolding axis_checks axis_valid
  axes-valid [] h = refl
  axes-valid (axis ∷ axes) (h, hs) =
      let (a, (b, _)) = (report-nil_iff (codes "experiment") _).0 h in
      rw (has_element axis.parameter a, has_element axis.values b) (axes-valid axes hs)

  sweep_valid_of : (axes : List (SweepAxis F)) → sweep_problems axes ≡ [] → sweep_valid axes ≡ true
  unfolding sweep_problems sweep_valid
  sweep_valid_of axes h =
      let counted = count_runs axes 1 false in
      let valid = axes-valid axes (
        (each-nil_iff (λ axis. report (codes "experiment") (axis_checks axis)) axes).0
          (append-nil_left _ _ h)) in
      let capped = cap_ok counted.0 counted.1 (
        append-nil_right (each (λ axis. report (codes "experiment") (axis_checks axis)) axes)
          (report (codes "experiment") (cap_checks counted)) h) in
      rw (valid, capped) refl

module _ (fl : Float64) where
  open fl use {F}

  -- The parts of the validation that the theorems read
  parts :
      (e : Experiment F)
      → validate_experiment fl e ≡ []
      → (report (codes "experiment") (network_checks e e.network) ≡ [])
        × (sweep_problems e.sweep ≡ [])
  unfolding validate_experiment
  parts e h =
      let place = codes "experiment" in
      let h1 = append-nil_right (report place (enum_checks e)) _ h in
      let h2 = append-nil_right (report place (option_checks fl e)) _ h1 in
      let h3 = append-nil_right (report place (network_checks e e.network)) _ h2 in
      let h4 = append-nil_right (report place (power_flow_checks fl e.power_flow)) _ h3 in
      let h5 = append-nil_right (report place (monte_carlo_checks fl e.monte_carlo)) _ h4 in
      let h6 = append-nil_right (report place (solver_checks fl e.solver)) _ h5 in
      (
        append-nil_left (report place (network_checks e e.network)) _ h2,
        append-nil_right (each (λ sc. report place (scenario_checks fl sc)) e.scenarios)
            (sweep_problems e.sweep) h6,
      )

  -- An experiment that passes validation and has a sweep expands it into at least one run and at most
  -- the cap of 1000.
  pub validate_experiment-runs :
      (e : Experiment F) (axis : SweepAxis F) (axes : List (SweepAxis F))
      → validate_experiment fl e ≡ []
      → e.sweep ≡ axis ∷ axes
      → (1 ≤ length (expand_sweep e.sweep)) × (length (expand_sweep e.sweep) ≤ max_sweep_runs)
  validate_experiment-runs e axis axes h s =
      let valid : sweep_problems (axis ∷ axes) ≡ [] = rw s at (parts e h).1 in
      rw s (sweep_valid_bounds axis axes (sweep_valid_of (axis ∷ axes) valid))

  network-security :
      (e : Experiment F) (nw : Option (NetworkOptions F)) (n : NetworkOptions F)
      (sec : SecurityOptions F)
      → report (codes "experiment") (network_checks e nw) ≡ []
      → nw ≡ some n
      → n.security ≡ some sec
      → report (codes "experiment") (security_checks e (some sec)) ≡ []
  unfolding network_checks
  network-security e none n sec h p q = cc
  network-security e (some nw) n sec h p q =
      let same : nw.security ≡ some sec = rw (← q) (ap (λ x. x.security) (some_injective p)) in
      (report-nil_iff _ _).1 (rw same at ((report-nil_iff _ _).0 h).1)

  -- A security-constrained solve of an experiment that passes validation names an outage, runs in mode
  -- plan and treats the network by linear power flow.
  pub validate_experiment-security :
      (e : Experiment F) (nw : NetworkOptions F) (sec : SecurityOptions F)
      → validate_experiment fl e ≡ []
      → e.network ≡ some nw
      → nw.security ≡ some sec
      → (sec.outages ≢ [])
        × (effective_mode e ≡ plan_mode)
        × (effective_network e ≡ linear_power_flow)
  unfolding security_checks
  validate_experiment-security e nw sec h p q =
      let (a, (b, (c, _))) =
        (report-nil_iff (codes "experiment") (security_checks e (some sec))).0
          (network-security e e.network nw sec (parts e h).0 p q) in
      (
        λ none_named. cc (rw none_named at a),
        (str_eq_iff _ _).0 (true_of_not (str_eq (effective_mode e) plan_mode) c),
        (str_eq_iff _ _).0 (true_of_not (str_eq (effective_network e) linear_power_flow) b),
      )
