-- ===== src/Target/Pypsa/Flow.antt =====
-- `validatePowerFlow` of internal/target/pypsa/powerflow.go: what a power flow asks of a job. The code
-- returns at its first error: the head of the list of problems.
pub mod Held
pub mod Balancing
pub mod Generators
pub mod Emitted
pub mod Compared
pub mod Agreed
pub mod Solvable
use meme.Base.{
  Bool, true, false, not, ◌&&◌, ◌||◌, Option, none, some, List, [], ◌∷◌, ◌++◌, if◌then◌else◌,
  Float64, ℤ, negsuc, Text, codes, str_eq, Map, lookup, insert, sorted_keys, get_or_else,
}
use meme.Model.Types.{TechElectrical, NodeElectrical, Capacity, Technology, Transmission, Model}
use meme.Model.Run.{PowerFlowOptions, Job}
use meme.Model.Run.Modes.{power_flow_mode}
use meme.Model.Enums.{demand}
use meme.Model.Ids.{contains_str}
use meme.Model.Electrical.{is_pv, rating, slack_or_empty, effective_method}
use meme.Model.Overrides.{tech_at}
use meme.Model.Checks.{Problem, report, given}
use meme.Model.Validate.Each.{each, each_entry}
use meme.Model.Validate.Times.{no_entry}
use meme.Model.Validate.Techs.{no_element}
use meme.Target.Gates.{mode_place, listing}
use meme.Target.Gates.Uses.{any_value, has_shunt}
use meme.Target.Pypsa.Buses.{Pair, bus_grid}
use meme.Target.Pypsa.Islands.{is_active, ac_islands}
use meme.Target.Pypsa.Flow.Held.{injects, setpoints_by_node, agreement_problems}
use meme.Target.Pypsa.Flow.Balancing.{Balance, balance_of}
use meme.Target.Pypsa.Network.{
  Slack, unresolved, balancing, cut_at, electrical_carriers, component_name, supplies,
  slack_component, ac_nodes, on_network, level_problems,
}

abbrev pub slack_place : Text
slack_place = codes "experiment.power_flow"

-- `others`: the carriers of the buses beside the network's, each once
unfoldable pub carriers_beside : Text → List Pair → Map Bool → Map Bool
carriers_beside carrier [] seen = seen
carriers_beside carrier ((n, c) ∷ grid) seen =
    carriers_beside carrier grid (if str_eq c carrier then seen else insert c true seen)

module _ {F : Type 0} where
  abbrev pub has_setpoint : Option (TechElectrical F) → Bool
  has_setpoint none = false
  has_setpoint (some e) = given e.voltage_setpoint

  -- One round of the loop over a technology's nodes
  unfoldable pub instance_problems : Text → Text → Text → Technology F → Text → List Problem
  instance_problems carrier slack id t n =
      let eff = tech_at t n in
      let name = component_name id t n in
      report (codes "tech " ++ name) (
        (
          supplies carrier t
              && ((has_setpoint eff.electrical && not (is_pv eff.electrical))
                  && not (str_eq name slack)),
          codes
              "electrical.voltage_setpoint needs control \"pv\" or the slack role (a PQ generator does not hold its bus voltage)",
        )
        ∷ (
          not (str_eq name slack) && not (given eff.dispatch),
          codes
              "mode \"power_flow\" needs a fixed dispatch for tech %q (only the slack %q balances); set technology.dispatch",
        )
        ∷ [])

  unfoldable pub injection_problems : Text → Text → Text → Technology F → List Problem
  injection_problems carrier slack id t =
      let problems = each (instance_problems carrier slack id t) t.node in
      if injects t then problems else []

  no_dispatch : Text → Option (Technology F) → Bool
  no_dispatch node none = true
  no_dispatch node (some t) = not (given (tech_at t node).dispatch)

  shares_slack : Option (PowerFlowOptions F) → Bool
  shares_slack none = false
  shares_slack (some o) = o.distribute_slack

  -- The check of a balance that the generators share
  unfoldable pub share_problems : Job F → Text → List Problem
  unfolding no_dispatch shares_slack
  share_problems j node =
      let id = (cut_at b'@' (slack_or_empty j.experiment.power_flow)).0 in
      report slack_place (
        (
          shares_slack j.experiment.power_flow && no_dispatch node (lookup id j.model.technologies),
          codes
              "experiment.power_flow.distribute_slack shares the balance in proportion to each generator's dispatch, so the slack %q needs a dispatch too (its expected output); otherwise PyPSA moves the whole balance onto the other generators",
        )
        ∷ [])

  -- `hasReactiveInputs`
  unfoldable pub has_reactive_inputs : Model F → Bool
  has_reactive_inputs m =
      any_value (λ t. given t.electrical || any_value (λ ov. given ov.electrical) t.node_overrides)
        m.technologies
      || any_value (λ n. has_shunt n.electrical) m.nodes

  solver_used : Job F → Bool
  solver_used j =
      let s = j.experiment.solver in
      given s.time_limit || (given s.mip_gap || (given s.threads || not (no_element s.option_keys)))

module _ (fl : Float64) where
  open fl use {F}

  unfoldable pub island_problems : Text → Text → Model F → List Text → List Problem
  island_problems carrier slack m island = report (listing island) (
      (
        str_eq (balance_of fl carrier island slack m).largest [],
        codes
            "AC island %v has no supply technology to balance it; PyPSA cannot solve a sub-network without a generator",
      )
      ∷ [])

  -- The checks once there is a slack
  unfoldable pub slack_problems : Job F → Text → Slack → List Problem
  slack_problems j carrier (unresolved message) = (slack_place, message) ∷ []
  slack_problems j carrier (balancing slack node) =
      share_problems j node
      ++ (each_entry (injection_problems carrier slack) j.model.technologies
          ++ (agreement_problems fl (setpoints_by_node fl carrier slack j.model)
              ++ each (island_problems carrier slack j.model)
                  (ac_islands j.model carrier (ac_nodes carrier (bus_grid j.model)))))

  unfoldable pub arc_flow_problems : Text → Text → Transmission F → List Problem
  arc_flow_problems carrier id l = report (codes "transmission " ++ id) (
      (
        str_eq l.carrier carrier && (not (given l.electrical) && not (given l.dispatch)),
        codes
            "transmission %q carries %s without electrical parameters or a dispatch; a power flow needs kind, r and x on a branch or a fixed transfer on a link",
      )
      ∷ (
        given l.electrical && not (given (rating fl l.electrical l.capacity)),
        codes
            "transmission %q needs electrical.s_nom or capacity.existing (the branch rating for the loading output)",
      )
      ∷ [])

  -- The checks once there is one network
  unfoldable pub network_problems : Job F → Text → List Problem
  network_problems j carrier =
      each_entry (arc_flow_problems carrier) j.model.transmission
      ++ (level_problems fl j.model (ac_nodes carrier (bus_grid j.model))
          ++ slack_problems j carrier
              (slack_component j.model carrier (slack_or_empty j.experiment.power_flow)))

  -- The errors of `validatePowerFlow`
  unfoldable pub power_flow_problems : Job F → List Problem
  power_flow_problems j =
      on_network
        (codes
          "mode \"power_flow\" needs at least one transmission with electrical parameters (kind, r, x): the arcs of the AC network to solve")
        (codes "electrical arcs span carriers %v; a power flow solves one AC network")
        (network_problems j) (electrical_carriers j.model)

  island_warnings : Text → Slack → Model F → List Text → List Problem
  island_warnings carrier (unresolved message) m island = []
  island_warnings carrier (balancing slack node) m island = report (listing island) (
      (
        not (balance_of fl carrier island slack m).has_slack,
        codes
            "AC island %v is balanced by PyPSA on its largest generator (%q), not by the slack %q",
      )
      ∷ [])

  -- The warnings of `validatePowerFlow` for the network of a carrier
  unfoldable pub network_warnings : Job F → Text → List Problem
  unfolding island_warnings solver_used
  network_warnings j carrier =
      let m = j.model in
      let grid = bus_grid m in
      let slack = slack_component m carrier (slack_or_empty j.experiment.power_flow) in
      each (island_warnings carrier slack m) (ac_islands m carrier (ac_nodes carrier grid))
      ++ report slack_place (
          (
            str_eq (effective_method j.experiment.power_flow) (codes "linear")
                && has_reactive_inputs m,
            codes
                "method \"linear\" ignores reactive power, voltage control and shunts: the DC solve carries active power only",
          )
          ∷ (
            not (no_entry (carriers_beside carrier grid [])),
            codes
                "power flow balances the %s network only; carriers %v are carried as fixed injections and not balanced",
          )
          ∷ (
            solver_used j,
            codes "solver settings are not used by a power flow (it is not an optimization)",
          )
          ∷ [])

  -- Without problems there is one electrical carrier.
  unfoldable pub power_flow_warnings : Job F → List Problem
  power_flow_warnings j = each (network_warnings j) (electrical_carriers j.model)
