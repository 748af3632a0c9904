-- ===== src/Target/Pypsa/Flow/Emitted.antt =====
-- The voltage set-points that the PyPSA emitter writes for a power flow: `voltageSetpoints` and
-- `powerFlowOf` of internal/target/pypsa/powerflow.go.
use meme.Base.{
  ◌||◌, Option, none, some, List, [], ◌∷◌, if◌then◌else◌, Text, str_eq, Map, lookup, insert,
  has_key, sorted_keys,
}
use meme.Model.Types.{TechElectrical, Technology, Model}
use meme.Model.Run.{Job}
use meme.Model.Run.Modes.{power_flow_mode, effective_mode}
use meme.Model.Electrical.{is_pv, slack_or_empty}
use meme.Model.Overrides.{tech_at}
use meme.Target.Pypsa.Islands.{first}
use meme.Target.Pypsa.Network.{
  Slack, unresolved, balancing, electrical_carriers, component_name, supplies, slack_component,
}

module _ {F : Type 0} where
  abbrev pub voltage_of : Option (TechElectrical F) → Option F
  voltage_of none = none
  voltage_of (some e) = e.voltage_setpoint

  -- `if _, seen := out[node]; !seen`
  unfoldable pub set_first : Text → Option F → Map F → Map F
  set_first n none out = out
  set_first n (some v) out = if has_key n out then out else insert n v out

  unfoldable pub emit_at : Text → Text → Technology F → Text → Map F → Map F
  emit_at slack id t n out =
      let e = (tech_at t n).electrical in
      if is_pv e || str_eq (component_name id t n) slack
      then set_first n (voltage_of e) out
      else out

  unfoldable pub emit_nodes : Text → Text → Technology F → List Text → Map F → Map F
  emit_nodes slack id t [] out = out
  emit_nodes slack id t (n ∷ ns) out = emit_nodes slack id t ns (emit_at slack id t n out)

  unfoldable pub emit_tech : Text → Text → Text → Option (Technology F) → Map F → Map F
  emit_tech carrier slack id none out = out
  emit_tech carrier slack id (some t) out =
      let all = emit_nodes slack id t t.node out in if supplies carrier t then all else out

  unfoldable pub emit_techs : Text → Text → Map (Technology F) → List Text → Map F → Map F
  emit_techs carrier slack techs [] out = out
  emit_techs carrier slack techs (id ∷ ids) out =
      emit_techs carrier slack techs ids (emit_tech carrier slack id (lookup id techs) out)

  -- `voltageSetpoints`
  unfoldable pub voltage_setpoints : Model F → Text → Text → Map F
  voltage_setpoints m carrier slack =
      emit_techs carrier slack m.technologies (sorted_keys m.technologies) []

-- `powerFlow`, without its options
pub record PowerFlow (F : Type 0) : Type 0 where
  pub carrier : Text
  pub slack : Text
  pub setpoints : Map F

unfoldable pub name_of : Slack → Text
name_of (unresolved message) = []
name_of (balancing name node) = name

-- `powerFlowOf`; `none` is its false
unfoldable pub power_flow_of : {F : Type 0} → Job F → Option (PowerFlow F)
power_flow_of {F} j =
    let carrier = first (electrical_carriers j.model) in
    let slack =
      name_of (slack_component j.model carrier (slack_or_empty j.experiment.power_flow)) in
    let pf : PowerFlow F = record {
      carrier = carrier;
      slack = slack;
      setpoints = voltage_setpoints j.model carrier slack;
    } in
    if str_eq (effective_mode j.experiment) power_flow_mode then some pf else none
