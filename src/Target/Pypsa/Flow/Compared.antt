-- ===== src/Target/Pypsa/Flow/Compared.antt =====
-- Which voltage set-points the emission takes, `voltageSetpoints` of internal/target/pypsa/powerflow.go,
-- and which the validation compares.
use meme.Base.{
  ◌≡◌, refl, sym, ap, ◌∙◌, inl, inr, true, false, ◌||◌, Option, none, some, List, [], ◌∷◌, ◌++◌,
  arith, In, In-append_left, In-append_right, Float64, Text, str_eq, str_eq_iff, some_injective,
  Map, lookup, insert, lookup-insert, has_key, sorted_keys, get_or_else, Bool-cases, &&-true,
}
use meme.Model.Types.{TechElectrical, Technology, Model}
use meme.Model.Enums.{supply}
use meme.Model.Electrical.{is_pv}
use meme.Model.Overrides.{tech_at}
use meme.Target.Pypsa.Islands.{is_active}
use meme.Target.Pypsa.Network.{component_name, supplies}
use meme.Target.Pypsa.Flow.Held.{
  injects, Setpoints, setpoint, hold_at, hold_nodes, hold_tech, hold_techs, setpoints_by_node,
}
use meme.Target.Pypsa.Flow.Emitted.{
  voltage_of, set_first, emit_at, emit_nodes, emit_tech, emit_techs, voltage_setpoints,
}

-- No technology of the model is switched off.
abbrev pub AllActive : {F : Type 0} → Model F → Type 0
AllActive {F} m =
    (id : Text) (t : Technology F) → lookup id m.technologies ≡ some t → is_active t.active ≡ true

module _ (fl : Float64) where
  open fl use {F}

  -- Each set-point that is emitted is one of those that are compared at its node.
  pub record Covers (out : Map F) (held : Setpoints fl) : Type 0 where
    pub at :
        (k : Text) (v : F)
        → lookup k out ≡ some v
        → (name : Text) × In (name, v) (get_or_else (lookup k held) [])

  -- One more to compare
  grown :
      (n : Text) (sp : Text × F) (out : Map F) (held : Setpoints fl)
      → Covers out held
      → Covers out (insert n (get_or_else (lookup n held) [] ++ sp ∷ []) held)
  grown n sp out held c = record {
    at = λ k v l.
        let (name, i) = c.at k v l in
        elim (Bool-cases (str_eq n k)) [
          | inl s ↦
              let same = (str_eq_iff n k).0 s in
              (
                name,
                rw (lookup-insert n k (get_or_else (lookup n held) [] ++ sp ∷ []) held, s, same)
                    (In-append_left (name, v) (get_or_else (lookup k held) []) (sp ∷ []) i),
              )
          | inr s ↦
              (name, rw (lookup-insert n k (get_or_else (lookup n held) [] ++ sp ∷ []) held, s) i)
        ];
  }

  -- The set-point of a technology is set and compared.
  set_lem :
      (n name : Text) (o : Option F) (x : F) (out : Map F) (held : Setpoints fl)
      → ((v : F) → o ≡ some v → x ≡ v)
      → Covers out held
      → Covers
          (set_first n o out)
          (insert n (get_or_else (lookup n held) [] ++ (name, x) ∷ []) held)
  unfolding set_first
  set_lem n name none x out held e c = grown n (name, x) out held c
  set_lem n name (some w) x out held e c = elim (Bool-cases (has_key n out)) [
    | inl s ↦ rw s (grown n (name, x) out held c)
    | inr s ↦ rw s (record {
      at = λ k v l. elim (Bool-cases (str_eq n k)) [
        | inl t ↦
            let found : some w ≡ some v = rw (lookup-insert n k w out, t) at l in
            let value = e w refl ∙ some_injective found in
            (
              name,
              rw (lookup-insert n k (get_or_else (lookup n held) [] ++ (name, x) ∷ []) held, t)
                  (In-append_right (name, v) (get_or_else (lookup n held) []) ((name, x) ∷ [])
                    (inl (ap (λ z. (name, z)) (sym value)))),
            )
        | inr t ↦ (grown n (name, x) out held c).at k v (rw (lookup-insert n k w out, t) at l)
      ];
    })
  ]

  module _ (carrier slack : Text) where
    voltage_lem :
        (e : Option (TechElectrical F)) (v : F) → voltage_of e ≡ some v → setpoint fl e ≡ v
    voltage_lem none v h = cc
    voltage_lem (some e) v h = rw h refl

    at_node :
        (id : Text) (t : Technology F) (n : Text) (out : Map F) (held : Setpoints fl)
        → supplies carrier t ≡ true
        → Covers out held
        → Covers (emit_at slack id t n out) (hold_at fl carrier slack id t n held)
    unfolding emit_at hold_at
    at_node id t n out held s c =
        let e = (tech_at t n).electrical in
        let name = component_name id t n in
        elim (Bool-cases (is_pv e || str_eq name slack)) [
          | inl h ↦
              let h' : (str_eq name slack || is_pv e) ≡ true = ground (arith, h) in
              rw (h, s, h')
                (set_lem n name (voltage_of e) (setpoint fl e) out held (voltage_lem e) c)
          | inr h ↦
              let h' : (str_eq name slack || is_pv e) ≡ false = ground (arith, h) in rw (h, s, h') c
        ]

    at_nodes :
        (id : Text) (t : Technology F) (ns : List Text) (out : Map F) (held : Setpoints fl)
        → supplies carrier t ≡ true
        → Covers out held
        → Covers (emit_nodes slack id t ns out) (hold_nodes fl carrier slack id t ns held)
    unfolding emit_nodes hold_nodes
    at_nodes id t [] out held s c = c
    at_nodes id t (n ∷ ns) out held s c = at_nodes id t ns _ _ s (at_node id t n out held s c)

    -- What does not supply the network holds no voltage.
    quiet :
        (id : Text) (t : Technology F) (ns : List Text) (held : Setpoints fl)
        → supplies carrier t ≡ false
        → hold_nodes fl carrier slack id t ns held ≡ held
    unfolding hold_nodes hold_at
    quiet id t [] held s = refl
    quiet id t (n ∷ ns) held s = rw (s, quiet id t ns held s) refl

    supply_injects :
        (t : Technology F)
        → supplies carrier t ≡ true
        → is_active t.active ≡ true
        → injects t ≡ true
    unfolding supplies str_eq
    supply_injects t s a =
        let role = (str_eq_iff t.role supply).0 ((&&-true s).0) in rw (role, a) refl

    at_tech :
        (id : Text) (o : Option (Technology F)) (out : Map F) (held : Setpoints fl)
        → ((t : Technology F) → o ≡ some t → is_active t.active ≡ true)
        → Covers out held
        → Covers (emit_tech carrier slack id o out) (hold_tech fl carrier slack id o held)
    unfolding emit_tech hold_tech
    at_tech id none out held a c = c
    at_tech id (some t) out held a c = elim (Bool-cases (supplies carrier t)) [
      | inl s ↦ rw (s, supply_injects t s (a t refl)) (at_nodes id t t.node out held s c)
      | inr s ↦ elim (Bool-cases (injects t)) [
        | inl i ↦ rw (s, i, quiet id t t.node held s) c
        | inr i ↦ rw (s, i) c
      ]
    ]

    module _ (m : Model F) where
      at_techs :
          (ids : List Text) (out : Map F) (held : Setpoints fl)
          → AllActive m
          → Covers out held
          → Covers
              (emit_techs carrier slack m.technologies ids out)
              (hold_techs fl carrier slack m.technologies ids held)
      unfolding emit_techs hold_techs
      at_techs [] out held a c = c
      at_techs (id ∷ ids) out held a c =
          at_techs ids _ _ a (at_tech id (lookup id m.technologies) out held (a id) c)

      pub voltage_setpoints-Covers :
          AllActive m
          → Covers (voltage_setpoints m carrier slack) (setpoints_by_node fl carrier slack m)
      unfolding voltage_setpoints setpoints_by_node lookup
      voltage_setpoints-Covers a =
          at_techs (sorted_keys m.technologies) [] [] a (record { at = λ k v l. cc })
