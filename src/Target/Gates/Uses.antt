-- ===== src/Target/Gates/Uses.antt =====
-- What a job uses of the features that targets may lack (internal/target/validate.go).
use meme.Base.{
  Bool, false, not, ◌&&◌, ◌||◌, Option, none, some, List, [], ◌∷◌, if◌then◌else◌, Text, codes,
  str_eq, Map, lookup, sorted_keys,
}
use meme.Model.Types.{Capacity, Operation, Storage, CostClass, NodeElectrical, Model}
use meme.Model.Checks.{given}
use meme.Model.Validate.Techs.{no_element}
use meme.Model.Uses.{has_uc_extras}

-- `modeFeature`
unfoldable pub mode_feature : Text → Text
mode_feature m =
    if str_eq m (codes "operate")
    then codes "mode:operate"
    else if str_eq m (codes "alternatives")
    then codes "mode:alternatives"
    else if str_eq m (codes "pareto")
    then codes "mode:pareto"
    else if str_eq m (codes "monte_carlo")
    then codes "mode:monte_carlo"
    else if str_eq m (codes "stochastic")
    then codes "mode:stochastic"
    else if str_eq m (codes "power_flow")
    then codes "power_flow"
    else codes "mode:plan"

-- A loop over the values of a map that sets a flag
abbrev pub any_value : {V : Type 0} → (V → Bool) → Map V → Bool
any_value p [] = false
any_value p ((k, v) ∷ m) = p v || any_value p m

-- A loop over the sorted keys that collects those whose value passes a test
abbrev pub passes : {V : Type 0} → (V → Bool) → Option V → Bool
passes p none = false
passes p (some v) = p v

unfoldable pub pick_keys : {V : Type 0} → (V → Bool) → Map V → List Text → List Text
pick_keys p m [] = []
pick_keys p m (k ∷ ks) =
    let rest = pick_keys p m ks in if passes p (lookup k m) then k ∷ rest else rest

unfoldable pub keys_with : {V : Type 0} → (V → Bool) → Map V → List Text
unfolding pick_keys
keys_with p m = pick_keys p m (sorted_keys m)

module _ {F : Type 0} where
  -- `op != nil && op.Committable`
  abbrev pub committable_op : Option (Operation F) → Bool
  committable_op none = false
  committable_op (some op) = op.committable

  -- `c != nil && c.Expandable`
  abbrev pub expandable_cap : Option (Capacity F) → Bool
  expandable_cap none = false
  expandable_cap (some c) = c.expandable

  -- The flags of the technologies and their overrides
  unfoldable pub uses_flows : Model F → Bool
  uses_flows m = any_value (λ t. not (no_element t.flows)) m.technologies

  unfoldable pub uses_commit : Model F → Bool
  uses_commit m =
      any_value
        (λ t.
          committable_op t.operation
          || any_value (λ ov. committable_op ov.operation) t.node_overrides)
        m.technologies

  unfoldable pub uses_area : Model F → Bool
  uses_area m =
      any_value (λ t. given t.area || any_value (λ ov. given ov.area) t.node_overrides)
        m.technologies

  unfoldable pub uses_source : Model F → Bool
  uses_source m =
      any_value (λ t. given t.source || any_value (λ ov. given ov.source) t.node_overrides)
        m.technologies

  -- The lists of `powerFlowInputs`
  unfoldable pub flow_techs : Model F → List Text
  unfolding keys_with
  flow_techs m =
      keys_with
        (λ t.
          given t.dispatch
          || (given t.electrical
              || any_value (λ ov. given ov.dispatch || given ov.electrical) t.node_overrides))
        m.technologies

  unfoldable pub flow_arcs : Bool → Model F → List Text
  unfolding keys_with
  flow_arcs lopf m =
      keys_with (λ l. given l.dispatch || (not lopf && given l.electrical)) m.transmission

  abbrev pub has_shunt : Option (NodeElectrical F) → Bool
  has_shunt none = false
  has_shunt (some e) = given e.shunt

  unfoldable pub flow_nodes : Bool → Model F → List Text
  unfolding keys_with
  flow_nodes lopf m =
      keys_with (λ n. given n.electrical && (not lopf || has_shunt n.electrical)) m.nodes

  abbrev pub fixes_soc : Option (Storage F) → Bool
  fixes_soc none = false
  fixes_soc (some s) = given s.soc_profile

  -- The technologies with ignorable fields
  unfoldable pub soc_techs : Model F → List Text
  unfolding keys_with
  soc_techs m =
      keys_with
        (λ t. fixes_soc t.storage || any_value (λ ov. fixes_soc ov.storage) t.node_overrides)
        m.technologies

  unfoldable pub uc_techs : Model F → List Text
  unfolding keys_with has_uc_extras
  uc_techs m =
      keys_with
        (λ t.
          has_uc_extras t.operation
          || any_value (λ ov. has_uc_extras ov.operation) t.node_overrides)
        m.technologies

  abbrev pub quadratic : Map (CostClass F) → Bool
  quadratic costs = any_value (λ c. given c.variable_om_quadratic) costs

  unfoldable pub quadratic_techs : Model F → List Text
  unfolding keys_with
  quadratic_techs m =
      keys_with (λ t. quadratic t.costs || any_value (λ ov. quadratic ov.costs) t.node_overrides)
        m.technologies
