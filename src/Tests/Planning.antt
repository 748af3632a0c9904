-- ===== src/Tests/Planning.antt =====
-- The PyPSA emitter: a retirable plant over two investment periods, and a scenario's overrides.
use meme.Base.{
  ℕ, ◌≡◌, ◌↔◌, refl, ◌-◌, ◌*◌, true, false, none, some, List, [], ◌∷◌, map, In, Text, codes, pos,
  itoa, itoa_ℤ, digits, str_eq, str_lt, has_suffix, has_prefix, strip_prefix, split, split_from,
  lookup, has_key, sorted_keys, sort_strings, insert_sorted,
}
use meme.Model.Types.{Technology}
use meme.Model.Periods.{InvestmentPeriod}
use meme.Model.Run.{Scenario}
use meme.Service.Orchestrator.{empty_capacity}
use meme.Emit.Capex.{Powers}
use meme.Target.Pypsa.Planning.{
  Row, cell, decommission_mode, is_continuous, is_new_build, retirement_names, names_of_part,
  names_of_parts, emitted_names, period_rows, retirement_rows,
}
use meme.Target.Pypsa.Planning.Names.{period_rows-emitted_names}
use meme.Target.Pypsa.Planning.Existing.{emitted_names-existing}
use meme.Target.Pypsa.Scenarios.{
  ScenarioSet, translated, pypsa_table, attribute_of, scenario_set, sets_of, scenario_sets,
}
use meme.Target.Pypsa.Scenarios.Assigned.{Assignments, scenario_sets-Assignments_iff}
use meme.Tests.Fixtures.{naturals, wind, grid}

abbrev pub powers : Powers naturals
powers = record {
  sub = ◌-◌;
  neg = λ x. x;
  abs = λ x. x;
  pow = λ x y. x * y;
  expm1 = λ x. x;
  log1p = λ x. x;
  nan = 99;
  is_nan = λ x. false;
  is_inf = λ x. false;
  small_rate = 1;
  format_float = itoa;
}

abbrev retirable : Technology ℕ
retirable = record wind {
  capacity = some (record (empty_capacity naturals) {
    existing = 5;
    expandable = true;
    max = some 20;
    decommission = some (record { mode = codes "continuous"; cost = none });
  });
  lifetime = some 20;
}

abbrev stage : ℕ → InvestmentPeriod ℕ
stage year = record { name = itoa year; year = pos year; years = 10; objective = 1 }

abbrev stages : List (InvestmentPeriod ℕ)
stages = stage 2030 ∷ stage 2040 ∷ []

abbrev plant_row : Row
plant_row = (codes "name", codes "solar") ∷ (codes "p_nom", codes "5") ∷ []

-- The existing part, and the new one in each period
solar-names :
    emitted_names (codes "solar") retirable stages
    ≡ codes "solar" ∷ codes "solar_new-2030" ∷ codes "solar_new-2040" ∷ []
unfolding emitted_names retirement_names names_of_parts names_of_part is_new_build decommission_mode
    has_suffix has_prefix strip_prefix str_eq itoa_ℤ itoa digits
solar-names = refl

-- A name in _new makes the existing part a new one in each period: no component is left for it.
solar_new-names :
    emitted_names (codes "solar_new") retirable (stage 2030 ∷ [])
    ≡ codes "solar_new-2030" ∷ codes "solar_new_new-2030" ∷ []
unfolding emitted_names retirement_names names_of_parts names_of_part is_new_build decommission_mode
    has_suffix has_prefix strip_prefix str_eq itoa_ℤ itoa digits
solar_new-names = refl

period_rows-emitted_names_example :
    map (cell (codes "name")) (
      period_rows naturals powers
        (retirement_rows naturals powers grid retirable plant_row)
        retirable
        stages)
    ≡ emitted_names (cell (codes "name") plant_row) retirable stages
period_rows-emitted_names_example =
    period_rows-emitted_names naturals powers grid retirable stages plant_row

retirable-IsContinuous : is_continuous retirable.capacity ≡ true
unfolding decommission_mode str_eq
retirable-IsContinuous = refl

solar-suffix : has_suffix (codes "solar") (codes "_new") ≡ false
unfolding has_suffix has_prefix strip_prefix
solar-suffix = refl

emitted_names-existing_example : In (codes "solar") (emitted_names (codes "solar") retirable stages)
emitted_names-existing_example =
    emitted_names-existing retirable stages (codes "solar") retirable-IsContinuous solar-suffix

abbrev dear : Scenario ℕ
dear = record {
  name = codes "dear";
  weight = 1;
  overrides =
      (codes "technologies.wind.efficiency", some 2)
      ∷ (codes "technologies.wind.capacity.max", some 30)
      ∷ [];
}

abbrev assignment : Text → ℕ → ScenarioSet ℕ
assignment attribute v = record {
  table = codes "generators";
  component = codes "wind";
  attribute = attribute;
  value = v;
}

abbrev assignments : List (ScenarioSet ℕ)
assignments = assignment (codes "p_nom_max") 30 ∷ assignment (codes "efficiency") 2 ∷ []

dear-translated : scenario_sets grid dear ≡ translated assignments
unfolding scenario_sets sets_of scenario_set attribute_of pypsa_table split split_from lookup str_eq
    str_lt sorted_keys sort_strings insert_sorted has_key
dear-translated = refl

scenario_sets-Assignments_iff_example :
    (scenario_sets grid dear ≡ translated assignments)
    ↔ Assignments grid dear (sorted_keys dear.overrides) assignments
scenario_sets-Assignments_iff_example = scenario_sets-Assignments_iff grid dear assignments
