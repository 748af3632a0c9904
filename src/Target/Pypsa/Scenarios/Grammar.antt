-- ===== src/Target/Pypsa/Scenarios/Grammar.antt =====
-- The grammar of override paths on a technology in `ScenarioSets` of
-- internal/target/pypsa/scenarios.go: tables by role, attributes by path.
use meme.Base.{
  ◌≡◌, ◌≢◌, refl, inl, inr, true, false, not, ◌&&◌, none, some, List, [], ◌∷◌, arith, Text, codes,
  str_eq, str_eq_iff, some_injective, Bool-cases, &&-true,
}
use meme.Model.Enums.{supply, demand, conversion, storage}
use meme.Target.Gates.Warnings.{primary_cost_class}
use meme.Target.Pypsa.Scenarios.{pypsa_table, attribute_of}

-- The component table of a role
pub data HasTable : Text → Text → Type 0 where
  generators : HasTable supply (codes "generators")
  loads : HasTable demand (codes "loads")
  links : HasTable conversion (codes "links")
  storage_units : HasTable storage (codes "storage_units")

-- The attribute that a path behind a technology's id stands for, for the role
pub data HasAttribute (role : Text) : List Text → Text → Type 0 where
  efficiency :
      (rest : List Text)
      → role ≢ demand
      → HasAttribute role (codes "efficiency" ∷ rest) (codes "efficiency")
  profile :
      (rest : List Text)
      → role ≡ demand
      → HasAttribute role (codes "demand_profile" ∷ rest) (codes "p_set")
  maximum : HasAttribute role (codes "capacity" ∷ codes "max" ∷ []) (codes "p_nom_max")
  existing : HasAttribute role (codes "capacity" ∷ codes "existing" ∷ []) (codes "p_nom")
  variable_om :
      HasAttribute role
        (codes "costs" ∷ codes "monetary" ∷ codes "variable_om" ∷ [])
        (codes "marginal_cost")

pub table_of : (role table : Text) → pypsa_table role ≡ some table → HasTable role table
unfolding pypsa_table
table_of role table h = elim (Bool-cases (str_eq role supply)) [
  | inl a ↦ rw ((str_eq_iff role supply).0 a, ← some_injective (rw a at h)) HasTable.generators
  | inr a ↦ elim (Bool-cases (str_eq role demand)) [
    | inl b ↦ rw ((str_eq_iff role demand).0 b, ← some_injective (rw (a, b) at h)) HasTable.loads
    | inr b ↦ elim (Bool-cases (str_eq role conversion)) [
      | inl c ↦
          rw ((str_eq_iff role conversion).0 c, ← some_injective (rw (a, b, c) at h)) HasTable.links
      | inr c ↦ elim (Bool-cases (str_eq role storage)) [
        | inl d ↦
            rw ((str_eq_iff role storage).0 d, ← some_injective (rw (a, b, c, d) at h))
              HasTable.storage_units
        | inr d ↦ let bad : none ≡ some table = rw (a, b, c, d) at h in cc
      ]
    ]
  ]
]

nested_attribute :
    (role field : Text) (rest : List Text) (a : Text)
    → (str_eq field (codes "efficiency") && not (str_eq role demand)) ≡ false
    → (str_eq field (codes "demand_profile") && str_eq role demand) ≡ false
    → attribute_of (str_eq role demand) field rest ≡ some a
    → HasAttribute role (field ∷ rest) a
unfolding attribute_of
nested_attribute role field [] a e d h = let bad : none ≡ some a = rw (e, d) at h in cc
nested_attribute role field (s ∷ []) a e d h = elim (Bool-cases (str_eq field (codes "capacity"))) [
  | inl c ↦ elim (Bool-cases (str_eq s (codes "max"))) [
    | inl x ↦
        rw
          (
            (str_eq_iff field (codes "capacity")).0 c,
            (str_eq_iff s (codes "max")).0 x,
            ← some_injective (rw (e, d, c, x) at h),
          )
          HasAttribute.maximum
    | inr x ↦ elim (Bool-cases (str_eq s (codes "existing"))) [
      | inl y ↦
          rw
            (
              (str_eq_iff field (codes "capacity")).0 c,
              (str_eq_iff s (codes "existing")).0 y,
              ← some_injective (rw (e, d, c, x, y) at h),
            )
            HasAttribute.existing
      | inr y ↦ let bad : none ≡ some a = rw (e, d, c, x, y) at h in cc
    ]
  ]
  | inr c ↦ let bad : none ≡ some a = rw (e, d, c) at h in cc
]
nested_attribute role field (class ∷ s ∷ []) a e d h =
    elim (Bool-cases (str_eq field (codes "costs"))) [
      | inl c ↦
          elim (Bool-cases (str_eq class primary_cost_class && str_eq s (codes "variable_om"))) [
            | inl x ↦
                let (x1, x2) = &&-true x in
                rw
                  (
                    (str_eq_iff field (codes "costs")).0 c,
                    (str_eq_iff class primary_cost_class).0 x1,
                    (str_eq_iff s (codes "variable_om")).0 x2,
                    ← some_injective (rw (e, d, c, x) at h),
                  )
                  HasAttribute.variable_om
            | inr x ↦ let bad : none ≡ some a = rw (e, d, c, x) at h in cc
          ]
      | inr c ↦ let bad : none ≡ some a = rw (e, d, c) at h in cc
    ]
nested_attribute role field (p ∷ q ∷ r ∷ rest) a e d h =
    let bad : none ≡ some a = rw (e, d) at h in cc

pub attribute_has :
    (role field : Text) (rest : List Text) (a : Text)
    → attribute_of (str_eq role demand) field rest ≡ some a
    → HasAttribute role (field ∷ rest) a
unfolding attribute_of
attribute_has role field rest a h =
    elim (Bool-cases (str_eq field (codes "efficiency") && not (str_eq role demand))) [
      | inl e ↦
          let (f, g) = &&-true e in
          let other : role ≢ demand = λ x. ground (arith, g, x, str_eq_iff role demand) in
          rw ((str_eq_iff field (codes "efficiency")).0 f, ← some_injective (rw e at h))
            (HasAttribute.efficiency rest other)
      | inr e ↦ elim (Bool-cases (str_eq field (codes "demand_profile") && str_eq role demand)) [
        | inl d ↦
            let (f, g) = &&-true d in
            rw ((str_eq_iff field (codes "demand_profile")).0 f, ← some_injective (rw (e, d) at h))
              (HasAttribute.profile rest ((str_eq_iff role demand).0 g))
        | inr d ↦ nested_attribute role field rest a e d h
      ]
    ]

pub HasTable-table : (role table : Text) → HasTable role table → pypsa_table role ≡ some table
unfolding pypsa_table str_eq
HasTable-table _ _ HasTable.generators = refl
HasTable-table _ _ HasTable.loads = refl
HasTable-table _ _ HasTable.links = refl
HasTable-table _ _ HasTable.storage_units = refl

pub HasAttribute-attribute :
    (role : Text) (path : List Text) (a : Text)
    → HasAttribute role path a
    → (field : Text) × (rest : List Text) × ((path ≡ field ∷ rest)
        × (attribute_of (str_eq role demand) field rest ≡ some a))
unfolding attribute_of str_eq
HasAttribute-attribute role _ _ (HasAttribute.efficiency rest other) =
    let no : str_eq role demand ≡ false = ground (arith, other, str_eq_iff role demand) in
    (codes "efficiency", rest, (refl, rw no refl))
HasAttribute-attribute role _ _ (HasAttribute.profile rest same) =
    let yes : str_eq role demand ≡ true = (str_eq_iff role demand).1 same in
    (codes "demand_profile", rest, (refl, rw yes refl))
HasAttribute-attribute role _ _ HasAttribute.maximum =
    (codes "capacity", codes "max" ∷ [], (refl, refl))
HasAttribute-attribute role _ _ HasAttribute.existing =
    (codes "capacity", codes "existing" ∷ [], (refl, refl))
HasAttribute-attribute role _ _ HasAttribute.variable_om =
    (codes "costs", codes "monetary" ∷ codes "variable_om" ∷ [], (refl, refl))
