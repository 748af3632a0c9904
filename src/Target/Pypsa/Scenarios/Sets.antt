-- ===== src/Target/Pypsa/Scenarios/Sets.antt =====
-- What `ScenarioSets` of internal/target/pypsa/scenarios.go translates: every override, to a component of
-- the model.
use meme.Base.{
  ◌≡◌, refl, sym, ap, ap₂, ◌∙◌, ◌↔◌, ◌⊎◌, inl, inr, true, Option, none, some, List, [], ◌∷◌, map,
  All, Text, codes, str_eq, split, lookup, has_key, sorted_keys, Bool-cases,
}
use meme.Model.Types.{Technology, Model}
use meme.Model.Run.{Scenario}
use meme.Model.Enums.{demand}
use meme.Model.Validate.Each.{Defined, has_key_iff}
use meme.Target.Pypsa.Scenarios.{
  Untranslatable, pypsa_table, ScenarioSet, Attempt, failed, translated, with_attribute, with_table,
  on_technology, on_known_carrier, translate, numeric, translate_numeric, scenario_set, prepend,
  then_sets, sets_of, scenario_sets,
}

pub cons_injective :
    {A : Type 0} (x y : A) (xs ys : List A)
    → ◌≡◌ {A = List A} (x ∷ xs) (y ∷ ys)
    → (x ≡ y) × (xs ≡ ys)
cons_injective x y xs ys h = (cc, cc)

pub done_injective :
    {A : Type 0} (x y : A) → ◌≡◌ {A = Attempt A} (translated x) (translated y) → x ≡ y
done_injective x y h = cc

pub failed-translated :
    {A : Type 0} (e : Untranslatable) (x : A) → ◌≡◌ {A = Attempt A} (failed e) (translated x) → ⊥
failed-translated e x h = cc

module _ {F : Type 0} where
  tail_done :
      (set : ScenarioSet F) (rest : Attempt (List (ScenarioSet F))) (sets : List (ScenarioSet F))
      → then_sets (translated set) rest ≡ translated sets
      → (later : List (ScenarioSet F)) × ((rest ≡ translated later) × (sets ≡ set ∷ later))
  unfolding then_sets prepend
  tail_done set (failed e) sets h = cc
  tail_done set (translated later) sets h = (later, (refl, cc))

  head_done :
      (a : Attempt (ScenarioSet F)) (rest : Attempt (List (ScenarioSet F)))
      (sets : List (ScenarioSet F))
      → then_sets a rest ≡ translated sets
      → (set : ScenarioSet F) × (a ≡ translated set)
  unfolding then_sets
  head_done (failed e) rest sets h = cc
  head_done (translated set) rest sets h = (set, refl)

  sets_of-translated :
      (m : Model F) (s : Scenario F) (paths : List Text) (sets : List (ScenarioSet F))
      → sets_of m s paths ≡ translated sets
      → map (scenario_set m s) paths ≡ map translated sets
  unfolding sets_of
  sets_of-translated m s [] [] h = refl
  sets_of-translated m s [] (set ∷ sets) h = cc
  sets_of-translated m s (path ∷ paths) sets h =
      let (set, e) = head_done (scenario_set m s path) (sets_of m s paths) sets h in
      let (later, (e', same)) = tail_done set (sets_of m s paths) sets (rw e at h) in
      rw same (
        ap₂ {A = Attempt (ScenarioSet F)} {B = List (Attempt (ScenarioSet F))}
          (λ a later. a ∷ later) e (sets_of-translated m s paths later e'))

  translated-sets_of :
      (m : Model F) (s : Scenario F) (paths : List Text) (sets : List (ScenarioSet F))
      → map (scenario_set m s) paths ≡ map translated sets
      → sets_of m s paths ≡ translated sets
  unfolding sets_of then_sets prepend
  translated-sets_of m s [] [] h = refl
  translated-sets_of m s [] (set ∷ sets) h = cc
  translated-sets_of m s (path ∷ paths) [] h = cc
  translated-sets_of m s (path ∷ paths) (set ∷ sets) h =
      let (e, e') = cons_injective (scenario_set m s path) (translated set) _ _ h in
      rw (e, translated-sets_of m s paths sets e') refl

  pub scenario_sets-translated_iff :
      (m : Model F) (s : Scenario F) (sets : List (ScenarioSet F))
      → (scenario_sets m s ≡ translated sets)
        ↔ (map (scenario_set m s) (sorted_keys s.overrides) ≡ map translated sets)
  unfolding scenario_sets
  scenario_sets-translated_iff m s sets =
      let paths = sorted_keys s.overrides in
      (sets_of-translated m s paths sets, translated-sets_of m s paths sets)

  -- A set names a component of the model.
  abbrev pub IsKnown : Model F → ScenarioSet F → Type 0
  IsKnown m set =
      Defined set.component m.technologies
      ⊎ (Defined set.component m.carriers × (set.table ≡ codes "carriers"))

  technology-IsKnown :
      (m : Model F) (id field : Text) (rest : List Text) (v : F) (o : Option (Technology F))
      (set : ScenarioSet F)
      → lookup id m.technologies ≡ o
      → on_technology id field rest v o ≡ translated set
      → IsKnown m set
  unfolding on_technology with_table with_attribute
  technology-IsKnown m id field rest v none set e h = cc
  technology-IsKnown m id field rest v (some t) set e h =
      inl (t, ap (λ k. lookup k m.technologies) (component (pypsa_table t.role) h) ∙ e)
    where
      unfold_attribute :
          (table : Text) (o : Option Text)
          → with_attribute table id v o ≡ translated set
          → set.component ≡ id
      unfold_attribute table none h = cc
      unfold_attribute table (some a) h = ap (λ r. r.component) (sym (done_injective _ set h))

      component :
          (o : Option Text)
          → with_table id (str_eq t.role demand) field rest v o ≡ translated set
          → set.component ≡ id
      component none h = cc
      component (some table) h = unfold_attribute table _ h

  carrier-IsKnown :
      (m : Model F) (id field : Text) (v : F) (set : ScenarioSet F)
      → has_key id m.carriers ≡ true
      → on_known_carrier id field v ≡ translated set
      → IsKnown m set
  unfolding on_known_carrier
  carrier-IsKnown m id field v set k h = elim (Bool-cases (str_eq field (codes "co2_intensity"))) [
    | inl e ↦
        let same = done_injective _ set (rw e at h) in
        inr (rw (← same) ((has_key_iff id m.carriers).0 k, refl))
    | inr e ↦ absurd (failed-translated _ set (rw e at h))
  ]

  translate-IsKnown :
      (m : Model F) (v : F) (seg : List Text) (set : ScenarioSet F)
      → translate m v seg ≡ translated set
      → IsKnown m set
  unfolding translate
  translate-IsKnown m v [] set h = cc
  translate-IsKnown m v (root ∷ []) set h = cc
  translate-IsKnown m v (root ∷ id ∷ []) set h = cc
  translate-IsKnown m v (root ∷ id ∷ field ∷ rest) set h =
      elim (Bool-cases (str_eq root (codes "technologies"))) [
        | inl a ↦
            technology-IsKnown m id field rest v (lookup id m.technologies) set refl (rw a at h)
        | inr a ↦ elim (Bool-cases (str_eq root (codes "carriers"))) [
          | inl b ↦ elim (Bool-cases (has_key id m.carriers)) [
            | inl c ↦ carrier-IsKnown m id field v set c (rw (a, b, c) at h)
            | inr c ↦ absurd (failed-translated _ set (rw (a, b, c) at h))
          ]
          | inr b ↦ absurd (failed-translated _ set (rw (a, b) at h))
        ]
      ]

  scenario_set-IsKnown :
      (m : Model F) (s : Scenario F) (path : Text) (set : ScenarioSet F)
      → scenario_set m s path ≡ translated set
      → IsKnown m set
  unfolding scenario_set translate_numeric
  scenario_set-IsKnown m s path set h = from_number (numeric (lookup path s.overrides)) h
    where
      from_number :
          (o : Option F) → translate_numeric m (split path b'.') o ≡ translated set → IsKnown m set
      from_number none h = absurd (failed-translated _ set h)
      from_number (some v) h = translate-IsKnown m v (split path b'.') set h

  sets_of-IsKnown :
      (m : Model F) (s : Scenario F) (paths : List Text) (sets : List (ScenarioSet F))
      → map (scenario_set m s) paths ≡ map translated sets
      → All (IsKnown m) sets
  sets_of-IsKnown m s paths [] h = tt
  sets_of-IsKnown m s [] (set ∷ sets) h = cc
  sets_of-IsKnown m s (path ∷ paths) (set ∷ sets) h =
      let (e, e') = cons_injective (scenario_set m s path) (translated set) _ _ h in
      (scenario_set-IsKnown m s path set e, sets_of-IsKnown m s paths sets e')

  -- Each assignment of a scenario that translates is to a technology or a carrier of the model.
  pub scenario_sets-IsKnown :
      (m : Model F) (s : Scenario F) (sets : List (ScenarioSet F))
      → scenario_sets m s ≡ translated sets
      → All (IsKnown m) sets
  scenario_sets-IsKnown m s sets h =
      sets_of-IsKnown m s (sorted_keys s.overrides) sets
        ((scenario_sets-translated_iff m s sets).0 h)
