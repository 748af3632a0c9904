-- ===== src/Target/Pypsa/Flow/Generators.antt =====
-- The loop over an island's generators in `validatePowerFlow` (internal/target/pypsa/powerflow.go).
use meme.Base.{
  ◌≡◌, refl, ◌∙◌, ◌⊎◌, inl, inr, true, false, Option, none, some, List, [], ◌∷◌, arith, In, Float64,
  negsuc, sorted_keys, Text, str_eq, str_eq_iff, lookup, Bool-cases,
}
use meme.Model.Types.{Technology, Model}
use meme.Model.Ids.{contains_str}
use meme.Model.Validate.References.{contains_str-In}
use meme.Target.Pypsa.Flow.Balancing.{
  active_supply, Balance, weigh_at, weigh_nodes, weigh_tech, weigh_techs, balance_of,
}

-- An active supply technology on the carrier stands at the node.
abbrev pub SuppliedAt : {F : Type 0} → Model F → Text → Text → Type 0
SuppliedAt {F} m carrier n =
    (id : Text) × (t : Technology F) × (lookup id m.technologies ≡ some t)
    × (active_supply carrier t ≡ true)
    × In n t.node

-- One stands at a node of the list.
abbrev pub Supplied : {F : Type 0} → Model F → Text → List Text → Type 0
Supplied m carrier island = (n : Text) × In n island × SuppliedAt m carrier n

module _ (fl : Float64) (carrier slack : Text) (island : List Text) where
  open fl use {F, of_int}

  -- One round either leaves the name or is at a node of the island.
  weigh_at_lem :
      (id : Text) (t : Technology F) (n : Text) (b : Balance fl)
      → ((weigh_at fl island slack id t n b).largest ≡ b.largest) ⊎ In n island
  unfolding weigh_at
  weigh_at_lem id t n b = elim (Bool-cases (contains_str island n)) [
    | inl s ↦ inr (contains_str-In island n s)
    | inr s ↦ inl (rw s refl)
  ]

  weigh_nodes_lem :
      (id : Text) (t : Technology F) (ns : List Text) (b : Balance fl)
      → ((weigh_nodes fl island slack id t ns b).largest ≡ b.largest)
        ⊎ ((n : Text) × In n ns × In n island)
  unfolding weigh_nodes
  weigh_nodes_lem id t [] b = inl refl
  weigh_nodes_lem id t (n ∷ ns) b =
      elim (weigh_nodes_lem id t ns (weigh_at fl island slack id t n b)) [
        | inl e ↦ elim (weigh_at_lem id t n b) [
          | inl f ↦ inl (e ∙ f)
          | inr i ↦ inr (n, inl refl, i)
        ]
        | inr (k, i, j) ↦ inr (k, inr i, j)
      ]

  module _ (m : Model F) where
    weigh_tech_lem :
        (id : Text) (o : Option (Technology F)) (b : Balance fl)
        → lookup id m.technologies ≡ o
        → ((weigh_tech fl carrier island slack id o b).largest ≡ b.largest)
          ⊎ Supplied m carrier island
    unfolding weigh_tech
    weigh_tech_lem id none b e = inl refl
    weigh_tech_lem id (some t) b e = elim (Bool-cases (active_supply carrier t)) [
      | inl s ↦ elim (weigh_nodes_lem id t t.node b) [
        | inl f ↦ inl (rw s f)
        | inr (n, i, j) ↦ inr (n, j, (id, t, e, s, i))
      ]
      | inr s ↦ inl (rw s refl)
    ]

    weigh_techs_lem :
        (ids : List Text) (b : Balance fl)
        → ((weigh_techs fl carrier island slack m.technologies ids b).largest ≡ b.largest)
          ⊎ Supplied m carrier island
    unfolding weigh_techs
    weigh_techs_lem [] b = inl refl
    weigh_techs_lem (id ∷ ids) b =
        let o = lookup id m.technologies in
        elim (weigh_techs_lem ids (weigh_tech fl carrier island slack id o b)) [
          | inl e ↦ elim (weigh_tech_lem id o b refl) [ inl f ↦ inl (e ∙ f) | inr s ↦ inr s ]
          | inr s ↦ inr s
        ]

    -- A largest generator is one at a node of the island.
    pub balance_of-Supplied :
        str_eq (balance_of fl carrier island slack m).largest [] ≡ false → Supplied m carrier island
    unfolding balance_of
    balance_of-Supplied h =
        let start : Balance fl = record {
          largest = [];
          largest_cap = of_int (negsuc 0);
          has_slack = false;
        } in
        elim (weigh_techs_lem (sorted_keys m.technologies) start) [
          | inl e ↦ absurd (unnamed _ e h)
          | inr s ↦ s
        ]
      where
        unnamed : (name : Text) → name ≡ [] → str_eq name [] ≡ false → ⊥
        unnamed name e g = ground (arith, e, g, str_eq_iff name [])
