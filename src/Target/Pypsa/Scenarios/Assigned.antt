-- ===== src/Target/Pypsa/Scenarios/Assigned.antt =====
-- What the overrides of a scenario assign: `ScenarioSets` of internal/target/pypsa/scenarios.go against the
-- table of its grammar.
use meme.Base.{
  ◌↔◌, ◌≡◌, refl, inl, inr, true, Option, none, some, List, [], ◌∷◌, map, Text, codes, str_eq,
  str_eq_iff, split, lookup, has_key, sorted_keys, Bool-cases,
}
use meme.Model.Types.{Technology, Model}
use meme.Model.Run.{Scenario}
use meme.Model.Enums.{demand}
use meme.Model.Validate.Each.{Defined, has_key_iff}
use meme.Target.Pypsa.Scenarios.{
  pypsa_table, attribute_of, ScenarioSet, translated, with_attribute, with_table, on_technology,
  on_known_carrier, translate, numeric, translate_numeric, scenario_set, scenario_sets,
}
use meme.Target.Pypsa.Scenarios.Grammar.{
  HasTable, HasAttribute, table_of, attribute_has, HasTable-table, HasAttribute-attribute,
}
use meme.Target.Pypsa.Scenarios.Sets.{
  scenario_sets-translated_iff, cons_injective, done_injective, failed-translated,
}

-- What a path with a value assigns in a model
pub data Assigns {F : Type 0} (m : Model F) (v : F) : List Text → ScenarioSet F → Type 0 where
  technology :
      (id table attribute : Text) (path : List Text) (t : Technology F)
      → lookup id m.technologies ≡ some t
      → HasTable t.role table
      → HasAttribute t.role path attribute
      → Assigns m v
          (codes "technologies" ∷ id ∷ path)
          (record { table = table; component = id; attribute = attribute; value = v })
  carrier :
      (id : Text) (rest : List Text)
      → Defined id m.carriers
      → Assigns m v (codes "carriers" ∷ id ∷ codes "co2_intensity" ∷ rest) (record {
        table = codes "carriers";
        component = id;
        attribute = codes "co2_emissions";
        value = v;
      })

module _ {F : Type 0} (m : Model F) where
  technology-Assigns :
      (id field : Text) (rest : List Text) (v : F) (o : Option (Technology F)) (set : ScenarioSet F)
      → lookup id m.technologies ≡ o
      → on_technology id field rest v o ≡ translated set
      → Assigns m v (codes "technologies" ∷ id ∷ field ∷ rest) set
  unfolding on_technology with_table with_attribute
  technology-Assigns id field rest v none set e h = cc
  technology-Assigns id field rest v (some t) set e h = from_table (pypsa_table t.role) refl h
    where
      from_attribute :
          (table : Text) (o : Option Text)
          → pypsa_table t.role ≡ some table
          → attribute_of (str_eq t.role demand) field rest ≡ o
          → with_attribute table id v o ≡ translated set
          → Assigns m v (codes "technologies" ∷ id ∷ field ∷ rest) set
      from_attribute table none e₁ e₂ h = absurd (failed-translated _ set h)
      from_attribute table (some a) e₁ e₂ h = rw (← done_injective _ set h) (
          Assigns.technology id table a (field ∷ rest) t e (table_of t.role table e₁)
            (attribute_has t.role field rest a e₂))

      from_table :
          (o : Option Text)
          → pypsa_table t.role ≡ o
          → with_table id (str_eq t.role demand) field rest v o ≡ translated set
          → Assigns m v (codes "technologies" ∷ id ∷ field ∷ rest) set
      from_table none e₁ h = absurd (failed-translated _ set h)
      from_table (some table) e₁ h =
          from_attribute table (attribute_of (str_eq t.role demand) field rest) e₁ refl h

  carrier-Assigns :
      (id field : Text) (rest : List Text) (v : F) (set : ScenarioSet F)
      → has_key id m.carriers ≡ true
      → on_known_carrier id field v ≡ translated set
      → Assigns m v (codes "carriers" ∷ id ∷ field ∷ rest) set
  unfolding on_known_carrier
  carrier-Assigns id field rest v set k h =
      elim (Bool-cases (str_eq field (codes "co2_intensity"))) [
        | inl e ↦
            rw ((str_eq_iff field (codes "co2_intensity")).0 e, ← done_injective _ set (rw e at h))
              (Assigns.carrier id rest ((has_key_iff id m.carriers).0 k))
        | inr e ↦ absurd (failed-translated _ set (rw e at h))
      ]

  translate-Assigns :
      (v : F) (seg : List Text) (set : ScenarioSet F)
      → translate m v seg ≡ translated set
      → Assigns m v seg set
  unfolding translate
  translate-Assigns v [] set h = cc
  translate-Assigns v (root ∷ []) set h = cc
  translate-Assigns v (root ∷ id ∷ []) set h = cc
  translate-Assigns v (root ∷ id ∷ field ∷ rest) set h =
      elim (Bool-cases (str_eq root (codes "technologies"))) [
        | inl a ↦
            rw ((str_eq_iff root (codes "technologies")).0 a)
              (technology-Assigns id field rest v (lookup id m.technologies) set refl (rw a at h))
        | inr a ↦ elim (Bool-cases (str_eq root (codes "carriers"))) [
          | inl b ↦ elim (Bool-cases (has_key id m.carriers)) [
            | inl c ↦
                rw ((str_eq_iff root (codes "carriers")).0 b)
                  (carrier-Assigns id field rest v set c (rw (a, b, c) at h))
            | inr c ↦ absurd (failed-translated _ set (rw (a, b, c) at h))
          ]
          | inr b ↦ absurd (failed-translated _ set (rw (a, b) at h))
        ]
      ]

  -- The value of the override at a path is a number, and the set assigns it.
  pub IsAssignment : Scenario F → Text → ScenarioSet F → Type 0
  IsAssignment s path set =
      (v : F) × ((lookup path s.overrides ≡ some (some v)) × Assigns m v (split path b'.') set)

  -- One assignment for every path, in their order
  pub Assignments : Scenario F → List Text → List (ScenarioSet F) → Type 0
  Assignments s [] [] = Unit
  Assignments s [] (set ∷ sets) = ⊥
  Assignments s (path ∷ paths) [] = ⊥
  Assignments s (path ∷ paths) (set ∷ sets) = IsAssignment s path set × Assignments s paths sets

  scenario_set-IsAssignment :
      (s : Scenario F) (path : Text) (set : ScenarioSet F)
      → scenario_set m s path ≡ translated set
      → IsAssignment s path set
  unfolding scenario_set translate_numeric numeric IsAssignment
  scenario_set-IsAssignment s path set h = from_entry (lookup path s.overrides) refl h
    where
      from_entry :
          (o : Option (Option F))
          → lookup path s.overrides ≡ o
          → translate_numeric m (split path b'.') (numeric o) ≡ translated set
          → IsAssignment s path set
      from_entry none e h = absurd (failed-translated _ set h)
      from_entry (some none) e h = absurd (failed-translated _ set h)
      from_entry (some (some v)) e h = (v, (e, translate-Assigns v (split path b'.') set h))

  paths-Assignments :
      (s : Scenario F) (paths : List Text) (sets : List (ScenarioSet F))
      → map (scenario_set m s) paths ≡ map translated sets
      → Assignments s paths sets
  unfolding Assignments
  paths-Assignments s [] [] h = tt
  paths-Assignments s [] (set ∷ sets) h = cc
  paths-Assignments s (path ∷ paths) [] h = cc
  paths-Assignments s (path ∷ paths) (set ∷ sets) h =
      let (e, e') = cons_injective (scenario_set m s path) (translated set) _ _ h in
      (scenario_set-IsAssignment s path set e, paths-Assignments s paths sets e')

  technology-translate :
      (v : F) (id table a : Text) (path : List Text) (t : Technology F)
      → lookup id m.technologies ≡ some t
      → HasTable t.role table
      → HasAttribute t.role path a
      → translate m v (codes "technologies" ∷ id ∷ path)
        ≡ translated (record { table = table; component = id; attribute = a; value = v })
  unfolding translate on_technology with_table with_attribute str_eq
  technology-translate v id table a path t e ht ha =
      let (field, rest, (same, found)) = HasAttribute-attribute t.role path a ha in
      rw (same, e, HasTable-table t.role table ht, found) refl

  Assigns-translate :
      (v : F) (seg : List Text) (set : ScenarioSet F)
      → Assigns m v seg set
      → translate m v seg ≡ translated set
  unfolding translate on_known_carrier str_eq
  Assigns-translate v _ _ (Assigns.technology id table a path t e ht ha) =
      technology-translate v id table a path t e ht ha
  Assigns-translate v _ _ (Assigns.carrier id rest d) = rw ((has_key_iff id m.carriers).1 d) refl

  IsAssignment-scenario_set :
      (s : Scenario F) (path : Text) (set : ScenarioSet F)
      → IsAssignment s path set
      → scenario_set m s path ≡ translated set
  unfolding IsAssignment scenario_set translate_numeric numeric
  IsAssignment-scenario_set s path set (v, (e, h)) =
      rw e (Assigns-translate v (split path b'.') set h)

  Assignments-paths :
      (s : Scenario F) (paths : List Text) (sets : List (ScenarioSet F))
      → Assignments s paths sets
      → map (scenario_set m s) paths ≡ map translated sets
  unfolding Assignments
  Assignments-paths s [] [] h = refl
  Assignments-paths s [] (set ∷ sets) h = absurd h
  Assignments-paths s (path ∷ paths) [] h = absurd h
  Assignments-paths s (path ∷ paths) (set ∷ sets) (h, more) =
      rw (IsAssignment-scenario_set s path set h, Assignments-paths s paths sets more) refl

  -- A scenario translates to a list of sets exactly if there is one for each of its overrides, in the
  -- order of their sorted paths, with the value of the override, which is a number, and with what the
  -- path names: for technologies.<id> a technology of the model, in the table of its role (generators of
  -- supply, loads of demand, links of conversion, storage_units of storage), with efficiency for a path
  -- on through the field efficiency unless it is a demand, p_set for one through demand_profile if it is
  -- one, p_nom_max for capacity.max, p_nom for capacity.existing and marginal_cost for
  -- costs.monetary.variable_om; for a path through carriers.<id>.co2_intensity a carrier of the model, in
  -- the table carriers, with co2_emissions. No other override translates.
  pub scenario_sets-Assignments_iff :
      (s : Scenario F) (sets : List (ScenarioSet F))
      → (scenario_sets m s ≡ translated sets) ↔ Assignments s (sorted_keys s.overrides) sets
  scenario_sets-Assignments_iff s sets =
      let paths = sorted_keys s.overrides in
      let (each_path, all_paths) = scenario_sets-translated_iff m s sets in
      (
        λ h. paths-Assignments s paths sets (each_path h),
        λ h. all_paths (Assignments-paths s paths sets h),
      )
