-- ===== src/Target/Pypsa/Scenarios.antt =====
-- `ScenarioSets` and `pypsaTable` of internal/target/pypsa/scenarios.go: what a scenario's overrides
-- assign in the component tables.
pub mod Sets
pub mod Grammar
pub mod Assigned
use meme.Base.{
  Bool, true, false, not, ◌&&◌, ◌||◌, Option, none, some, List, [], ◌∷◌, ◌++◌, any, if◌then◌else◌,
  Float64, Text, codes, str_eq, split, Map, lookup, has_key, sorted_keys,
}
use meme.Model.Types.{Technology, Term, Constraint, Model}
use meme.Model.Run.{Scenario}
use meme.Model.Enums.{supply, demand, conversion, storage}
use meme.Target.Gates.Warnings.{primary_cost_class}

pub record ScenarioSet (F : Type 0) : Type 0 where
  pub table : Text
  pub component : Text
  pub attribute : Text
  pub value : F

-- Why a path has no translation
pub data Untranslatable : Type 0 where
  not_numeric : Untranslatable
  too_short : Untranslatable
  unknown_technology : Untranslatable
  no_table : Untranslatable
  no_attribute : Untranslatable
  unknown_carrier : Untranslatable
  not_co2 : Untranslatable
  unsupported_root : Untranslatable

-- A value, or the reason why there is none
pub data Attempt {ℓ} (A : Type ℓ) : Type ℓ where
  failed : Untranslatable → Attempt A
  translated : A → Attempt A

-- `pypsaTable`
unfoldable pub pypsa_table : Text → Option Text
pypsa_table role =
    if str_eq role supply
    then some (codes "generators")
    else if str_eq role demand
    then some (codes "loads")
    else if str_eq role conversion
    then some (codes "links")
    else if str_eq role storage
    then some (codes "storage_units")
    else none

-- The attribute of a field of a technology; `rest` are the segments behind the field.
unfoldable pub attribute_of : Bool → Text → List Text → Option Text
attribute_of is_demand field rest =
    if str_eq field (codes "efficiency") && not is_demand
    then some (codes "efficiency")
    else if str_eq field (codes "demand_profile") && is_demand
    then some (codes "p_set")
    else nested field rest
  where
    capacity_attribute : Text → Option Text
    capacity_attribute s =
        if str_eq s (codes "max")
        then some (codes "p_nom_max")
        else if str_eq s (codes "existing")
        then some (codes "p_nom")
        else none

    cost_attribute : Text → Text → Option Text
    cost_attribute class s =
        if str_eq class primary_cost_class && str_eq s (codes "variable_om")
        then some (codes "marginal_cost")
        else none

    nested : Text → List Text → Option Text
    nested field (s ∷ []) = if str_eq field (codes "capacity") then capacity_attribute s else none
    nested field (class ∷ s ∷ []) =
        if str_eq field (codes "costs") then cost_attribute class s else none
    nested field _ = none

module _ {F : Type 0} where
  with_attribute : Text → Text → F → Option Text → Attempt (ScenarioSet F)
  with_attribute table id v none = failed no_attribute
  with_attribute table id v (some a) =
      translated (record { table = table; component = id; attribute = a; value = v })

  with_table : Text → Bool → Text → List Text → F → Option Text → Attempt (ScenarioSet F)
  unfolding with_attribute
  with_table id is_demand field rest v none = failed no_table
  with_table id is_demand field rest v (some table) =
      with_attribute table id v (attribute_of is_demand field rest)

  on_technology : Text → Text → List Text → F → Option (Technology F) → Attempt (ScenarioSet F)
  unfolding with_table
  on_technology id field rest v none = failed unknown_technology
  on_technology id field rest v (some t) =
      with_table id (str_eq t.role demand) field rest v (pypsa_table t.role)

  on_known_carrier : Text → Text → F → Attempt (ScenarioSet F)
  on_known_carrier id field v =
      if str_eq field (codes "co2_intensity")
      then translated (record {
        table = codes "carriers";
        component = id;
        attribute = codes "co2_emissions";
        value = v;
      })
      else failed not_co2

  -- The cases on the first segment, with at least three segments
  translate : Model F → F → List Text → Attempt (ScenarioSet F)
  unfolding on_technology on_known_carrier
  translate m v (root ∷ id ∷ field ∷ rest) =
      if str_eq root (codes "technologies")
      then on_technology id field rest v (lookup id m.technologies)
      else if not (str_eq root (codes "carriers"))
      then failed unsupported_root
      else if has_key id m.carriers
      then on_known_carrier id field v
      else failed unknown_carrier
  translate m v _ = failed too_short

  -- `NumericOverride`; what is not a number is `none`
  numeric : Option (Option F) → Option F
  numeric none = none
  numeric (some v) = v

  translate_numeric : Model F → List Text → Option F → Attempt (ScenarioSet F)
  unfolding translate
  translate_numeric m seg none = failed not_numeric
  translate_numeric m seg (some v) = translate m v seg

  -- One override of a scenario
  unfoldable pub scenario_set : Model F → Scenario F → Text → Attempt (ScenarioSet F)
  unfolding translate_numeric numeric
  scenario_set m s path = translate_numeric m (split path b'.') (numeric (lookup path s.overrides))

  prepend : ScenarioSet F → Attempt (List (ScenarioSet F)) → Attempt (List (ScenarioSet F))
  prepend set (failed e) = failed e
  prepend set (translated sets) = translated (set ∷ sets)

  then_sets :
      Attempt (ScenarioSet F) → Attempt (List (ScenarioSet F)) → Attempt (List (ScenarioSet F))
  unfolding prepend
  then_sets (failed e) rest = failed e
  then_sets (translated set) rest = prepend set rest

  unfoldable pub sets_of : Model F → Scenario F → List Text → Attempt (List (ScenarioSet F))
  unfolding then_sets
  sets_of m s [] = translated []
  sets_of m s (path ∷ paths) = then_sets (scenario_set m s path) (sets_of m s paths)

  -- `ScenarioSets`
  unfoldable pub scenario_sets : Model F → Scenario F → Attempt (List (ScenarioSet F))
  unfolding sets_of
  scenario_sets m s = sets_of m s (sorted_keys s.overrides)
