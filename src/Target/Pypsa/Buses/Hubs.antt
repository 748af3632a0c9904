-- ===== src/Target/Pypsa/Buses/Hubs.antt =====
-- The hubs of `copperplateHubs` in internal/target/pypsa/planning.go.
use meme.Base.{
  ◌≡◌, refl, sym, ap, ◌∙◌, ◌≤◌, inl, inr, List, [], ◌∷◌, ◌++◌, arith, All, append_assoc, append-nil,
  ltb, length, Text, str_eq, str_eq_iff, Map, lookup, insert, lookup-insert, sort_strings,
  sorted_keys, get_or_else, Bool-cases, if◌then◌else◌,
}
use meme.Model.Run.{Job}
use meme.Target.Pypsa.Buses.{Pair, CopperHub, by_carrier, hubs_of, copperplate_hubs}

-- The nodes of the pairs with this carrier
abbrev pub hosts : Text → List Pair → List Text
hosts c [] = []
hosts c ((node, carrier) ∷ pairs) =
    let rest = hosts c pairs in if str_eq carrier c then node ∷ rest else rest

pub hosts-by_carrier :
    (c : Text) (pairs : List Pair) (m : Map (List Text))
    → get_or_else (lookup c (by_carrier pairs m)) [] ≡ get_or_else (lookup c m) [] ++ hosts c pairs
unfolding by_carrier
hosts-by_carrier c [] m = sym (append-nil _)
hosts-by_carrier c ((node, carrier) ∷ pairs) m =
    hosts-by_carrier c pairs (insert carrier (get_or_else (lookup carrier m) [] ++ node ∷ []) m)
    ∙ elim (Bool-cases (str_eq carrier c)) [
      | inl e ↦
          rw
            (
              lookup-insert carrier c (get_or_else (lookup carrier m) [] ++ node ∷ []) m,
              e,
              (str_eq_iff carrier c).0 e,
            )
            (append_assoc (get_or_else (lookup c m) []) (node ∷ []) (hosts c pairs))
      | inr e ↦
          rw (lookup-insert carrier c (get_or_else (lookup carrier m) [] ++ node ∷ []) m, e) refl
    ]

-- A hub joins all nodes that host its carrier, of which there are two at least.
abbrev pub IsHub : List Pair → CopperHub → Type 0
IsHub pairs hub =
    (hub.nodes ≡ sort_strings (hosts hub.carrier pairs)) × (2 ≤ length (hosts hub.carrier pairs))

hubs_of-IsHub :
    (pairs : List Pair) (carriers : List Text)
    → All (IsHub pairs) (hubs_of (by_carrier pairs []) carriers)
unfolding hubs_of lookup
hubs_of-IsHub pairs [] = tt
hubs_of-IsHub pairs (c ∷ cs) =
    let later = hubs_of-IsHub pairs cs in
    let nodes = get_or_else (lookup c (by_carrier pairs [])) [] in
    let same : nodes ≡ hosts c pairs = hosts-by_carrier c pairs [] in
    elim (Bool-cases (ltb (length nodes) 2)) [
      | inl h ↦ rw h later
      | inr h ↦
          let two : 2 ≤ length nodes = ground (arith, h) in
          rw h ((ap sort_strings same, rw (← same) two), later)
    ]

-- Each hub of the copperplate joins exactly the nodes that host its carrier, and there are two at least.
pub copperplate_hubs-IsHub :
    {F : Type 0} (j : Job F) (pairs : List Pair) → All (IsHub pairs) (copperplate_hubs j pairs)
unfolding copperplate_hubs
copperplate_hubs-IsHub j pairs = elim (Bool-cases j.experiment.copperplate) [
  | inl h ↦ rw h (hubs_of-IsHub pairs (sorted_keys (by_carrier pairs [])))
  | inr h ↦ rw h tt
]
