-- ===== src/Target/Gates/Warnings.antt =====
-- The warnings of `validateGeneric`, and the whole of it.
use meme.Base.{
  Bool, false, not, ◌&&◌, ◌||◌, Option, none, some, List, [], ◌∷◌, ◌++◌, if◌then◌else◌, ltb, length,
  Float64, Text, codes, str_eq, is_some, Map, has_key,
}
use meme.Model.Types.{CostClass, Technology, Transmission, Model}
use meme.Model.Run.{Reporting, Job}
use meme.Model.Run.Modes.{power_flow_mode, effective_network, effective_mode}
use meme.Model.Enums.{conversion, linear_power_flow}
use meme.Model.Periods.{investment_periods}
use meme.Model.Checks.{Problem, report, given}
use meme.Model.Validate.Each.{each_entry}
use meme.Model.Validate.Times.{no_entry}
use meme.Model.Validate.Techs.{no_element}
use meme.Target.Gates.{Verdict, accepted, rejected, capable, listing, mode_place, gate_problems}
use meme.Target.Gates.Uses.{
  keys_with, flow_techs, flow_arcs, flow_nodes, soc_techs, uc_techs, quadratic_techs,
}

-- `"monetary"`
abbrev pub primary_cost_class : Text
primary_cost_class = codes "monetary"

-- One part of the warning about power-flow inputs
abbrev part : Text → List Text → List Text
part what [] = []
part what (id ∷ ids) = (what ++ listing (id ∷ ids)) ∷ []

-- `strings.Join(parts, ", ")`
abbrev join_comma : List Text → Text
join_comma [] = []
join_comma (p ∷ []) = p
join_comma (p ∷ q ∷ ps) = p ++ (codes ", " ++ join_comma (q ∷ ps))

abbrev ignored : Bool → List Text → Text → Bool × Text
ignored claimed ids message = (not (no_element ids) && not claimed, message)

module _ {F : Type 0} where
  -- The warning about the power-flow inputs; its place names them.
  unfoldable pub flow_warnings : Job F → List Problem
  flow_warnings j =
      let lopf = str_eq (effective_network j.experiment) linear_power_flow in
      let techs = flow_techs j.model in
      let arcs = flow_arcs lopf j.model in
      let nodes = flow_nodes lopf j.model in
      if str_eq (effective_mode j.experiment) power_flow_mode
      then []
      else report
          (join_comma (
            part (codes "dispatch/electrical on technologies ") techs
            ++ (part
                  (if lopf
                    then codes "dispatch on transmission "
                    else codes "electrical/dispatch on transmission ")
                  arcs
                ++ part (if lopf then codes "shunts on nodes " else codes "electrical on nodes ")
                    nodes)))
          ((
            not (no_element techs && (no_element arcs && no_element nodes)),
            codes
                "power-flow inputs are only used by mode power_flow on a target with the power_flow capability; in mode %q on target %q they are ignored",
          )
            ∷ [])

  -- The warnings about technologies, each after its gates
  unfoldable pub tech_warnings : Text → Technology F → List Problem
  tech_warnings id t = report (codes "tech " ++ id) (
      (
        str_eq t.role conversion
            && (no_element t.flows
                && (ltb 1 (length t.carrier_in) || ltb 1 (length t.carrier_out))),
        codes
            "lists multiple carriers without `flows`; the emitter uses only the first — use `flows` for a true multi-port conversion",
      )
      ∷ (
        not (no_entry t.costs) && not (has_key primary_cost_class t.costs),
        codes
            "defines costs under a class other than %q; emitters read only the %q class, so these costs are ignored",
      )
      ∷ [])

  -- Costs of an arc beside the investment per distance
  abbrev pub other_costs : CostClass F → Bool
  other_costs c =
      given c.investment_per_capacity
      || (given c.investment_per_energy_capacity
          || (given c.fixed_om
              || (given c.fixed_om_fraction
                  || (given c.variable_om || (given c.fuel_cost || given c.purchase)))))

  -- The loop over the cost classes stops at the first warning.
  unfoldable pub arc_warnings : Text → Text → Transmission F → List Problem
  arc_warnings name id l = report (codes "transmission " ++ id) (
      (
        not (no_element (keys_with other_costs l.costs)) && not (str_eq name (codes "pypsa")),
        codes
            "costs other than investment_per_capacity_distance are not emitted for target %q; capacity/efficiency/distance are honored",
      )
      ∷ [])

  abbrev output_dir_set : Option (Reporting F) → Bool
  output_dir_set none = false
  output_dir_set (some r) = not (str_eq r.output_dir [])

module _ (fl : Float64) where
  open fl use {F}

  -- The warnings about fields that the target ignores
  unfoldable pub ignored_warnings : Map Bool → Model F → List Problem
  ignored_warnings caps m =
      report (listing (soc_techs m)) (
        ignored (capable caps (codes "soc_profile")) (soc_techs m) (
          codes
            "storage.soc_profile is ignored by target %q (no fixed state-of-charge slot; the storage dispatch stays free there)")
        ∷ [])
      ++ (report (listing (uc_techs m)) (
            ignored (capable caps (codes "unit_commitment_extras")) (uc_techs m) (
              codes
                "unit-commitment extras (ramp_start_up, ramp_shut_down, standby_cost, initial_uptime, initial_downtime) are ignored by target %q")
            ∷ [])
          ++ (report (listing (quadratic_techs m)) (
                ignored (capable caps (codes "quadratic_cost")) (quadratic_techs m) (
                  codes
                    "costs.variable_om_quadratic is ignored by target %q (its variable cost stays linear there)")
                ∷ [])
              ++ report (codes "model.periods") (
                  (
                    is_some (investment_periods fl m) && not (capable caps (codes "multi_period")),
                    codes
                        "model.periods are ignored by target %q (single horizon); only a target with the multi_period capability plans over investment periods",
                  )
                  ∷ [])))

  -- All warnings, in order
  unfoldable pub gate_warnings : Map Bool → Text → Job F → List Problem
  unfolding flow_warnings ignored_warnings
  gate_warnings caps name j =
      flow_warnings j
      ++ (ignored_warnings caps j.model
          ++ (each_entry tech_warnings j.model.technologies
              ++ (each_entry (arc_warnings name) j.model.transmission
                  ++ report mode_place (
                      (
                        output_dir_set j.experiment.reporting,
                        codes
                            "reporting.output_dir is managed by the service layer and ignored; case_name/save_logs/shadow_prices are honored where the target supports them",
                      )
                      ∷ []))))

  unfoldable pub first_or : List Problem → List Problem → Verdict
  first_or [] warnings = accepted warnings
  first_or (p ∷ ps) warnings = rejected p

  -- `validateGeneric` of a target with these capabilities and this name
  unfoldable pub validate_generic : Map Bool → Text → Job F → Verdict
  unfolding first_or
  validate_generic caps name j = first_or (gate_problems fl caps j) (gate_warnings caps name j)
