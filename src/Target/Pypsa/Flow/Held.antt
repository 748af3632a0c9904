-- ===== src/Target/Pypsa/Flow/Held.antt =====
-- The voltage set-points that `validatePowerFlow` of internal/target/pypsa/powerflow.go compares.
use meme.Base.{
  Bool, not, ◌&&◌, ◌||◌, Option, none, some, List, [], ◌∷◌, ◌++◌, if◌then◌else◌, Float64, Text,
  codes, str_eq, Map, lookup, insert, sorted_keys, get_or_else,
}
use meme.Model.Types.{TechElectrical, Technology, Model}
use meme.Model.Enums.{demand}
use meme.Model.Electrical.{is_pv}
use meme.Model.Overrides.{tech_at}
use meme.Model.Checks.{Problem, report}
use meme.Model.Validate.Each.{each, each_entry}
use meme.Target.Pypsa.Islands.{is_active}
use meme.Target.Pypsa.Network.{component_name, supplies}

module _ {F : Type 0} where
  -- A technology whose dispatch a power flow takes as given
  abbrev pub injects : Technology F → Bool
  injects t = not (str_eq t.role demand) && is_active t.active

module _ (fl : Float64) where
  open fl use {F, zero, one, lt, eq, of_int}

  -- The voltage set-points of a node, each with its component
  abbrev pub Setpoints : Type 0
  Setpoints = Map (List (Text × F))

  abbrev pub setpoint : Option (TechElectrical F) → F
  setpoint none = one
  setpoint (some e) = get_or_else e.voltage_setpoint one

  -- `byNode[node] = append(…)` of a component that holds its node's voltage
  unfoldable pub hold_at : Text → Text → Text → Technology F → Text → Setpoints → Setpoints
  hold_at carrier slack id t n held =
      let eff = tech_at t n in
      let name = component_name id t n in
      if supplies carrier t && (str_eq name slack || is_pv eff.electrical)
      then insert n (get_or_else (lookup n held) [] ++ (name, setpoint eff.electrical) ∷ []) held
      else held

  unfoldable pub hold_nodes : Text → Text → Text → Technology F → List Text → Setpoints → Setpoints
  hold_nodes carrier slack id t [] held = held
  hold_nodes carrier slack id t (n ∷ ns) held =
      hold_nodes carrier slack id t ns (hold_at carrier slack id t n held)

  unfoldable pub hold_tech : Text → Text → Text → Option (Technology F) → Setpoints → Setpoints
  hold_tech carrier slack id none held = held
  hold_tech carrier slack id (some t) held =
      if injects t then hold_nodes carrier slack id t t.node held else held

  unfoldable pub hold_techs : Text → Text → Map (Technology F) → List Text → Setpoints → Setpoints
  hold_techs carrier slack techs [] held = held
  hold_techs carrier slack techs (id ∷ ids) held =
      hold_techs carrier slack techs ids (hold_tech carrier slack id (lookup id techs) held)

  -- `byNode`
  unfoldable pub setpoints_by_node : Text → Text → Model F → Setpoints
  unfolding hold_techs
  setpoints_by_node carrier slack m =
      hold_techs carrier slack m.technologies (sorted_keys m.technologies) []

  unfoldable pub disagreements : Text → List (Text × F) → List Problem
  disagreements n [] = []
  disagreements n ((name, v) ∷ sps) =
      each
        (λ (other, w). report n (
          (
            not (eq w v),
            codes "node %q: voltage set-points disagree (%s %g, %s %g); one bus holds one voltage",
          )
          ∷ []))
        sps

  -- The loop that compares the set-points of a node with its first
  unfoldable pub agreement_problems : Setpoints → List Problem
  agreement_problems = each_entry disagreements
