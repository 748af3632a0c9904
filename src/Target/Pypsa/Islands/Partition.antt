-- ===== src/Target/Pypsa/Islands/Partition.antt =====
-- What `acIslands` of internal/target/pypsa/powerflow.go comes to.
use meme.Base.{
  ℕ, str_eq, suc, ◌≡◌, refl, sym, ap, ◌∙◌, ◌↔◌, ◌+◌, inl, inr, true, List, [], ◌∷◌, map, arith, In,
  All, length, &&-true, Text, Map, lookup, sort_strings, sorted_keys, get_or_else, Bool-cases,
}
use meme.Model.Types.{Transmission, Model}
use meme.Model.Validate.Each.{In-sort_strings}
use meme.Model.Intern.Squatters.{In-of_sort_strings}
use meme.Target.Pypsa.Buses.{Pair, by_carrier}
use meme.Target.Pypsa.Buses.Hubs.{hosts, hosts-by_carrier}
use meme.Target.Pypsa.Islands.{
  Parents, find_root, rooted, link_all, self_parents, groups_of, sort_islands, islands, joins,
  branches, ac_islands,
}
use meme.Target.Pypsa.Islands.Joined.{Joined, here, along, back, Joined-trans, Joined-sym}
use meme.Target.Pypsa.Islands.Linked.{IsEdge, link_all-Progress}
use meme.Target.Pypsa.Islands.Rooted.{In-of_self, self_parents-IsLinked, rooted_lem, In-hosts_iff}
use meme.Target.Pypsa.Islands.Groups.{
  In-sort_islands, sort_islands-In, groups_of-In, In-groups_of, key_of,
}

agree_of :
    (r : Text → Text) (es : List Pair) (x y : Text)
    → All (λ (a, b). r a ≡ r b) es
    → In (x, y) es
    → r x ≡ r y
agree_of r [] x y a i = absurd i
agree_of r (e ∷ es) x y (p, a) (inl q) = ap (λ z. r z.0) q ∙ p ∙ sym (ap (λ z. r z.1) q)
agree_of r (e ∷ es) x y (p, a) (inr i) = agree_of r es x y a i

root_of_joined :
    (r : Text → Text) (es : List Pair)
    → All (λ (a, b). r a ≡ r b) es
    → {x y : Text} → Joined es x y
    → r x ≡ r y
root_of_joined r es a (here x) = refl
root_of_joined r es a (along {x} {y} i j) = agree_of r es x y a i ∙ root_of_joined r es a j
root_of_joined r es a (back {x} {y} i j) = sym (agree_of r es y x a i) ∙ root_of_joined r es a j

-- Some island holds both nodes.
abbrev pub Together : Text → Text → List (List Text) → Type 0
Together x y gs = (g : List Text) × In g gs × In x g × In y g

module _ (r : Text → Text) (nodes : List Text) where
  abbrev pairs : List Pair
  pairs = map (λ n. (n, r n)) nodes

  abbrev grouped : List (List Text)
  grouped = sort_islands (groups_of (by_carrier pairs []) (sorted_keys (by_carrier pairs [])))

  group_hosts : (c : Text) → get_or_else (lookup c (by_carrier pairs [])) [] ≡ hosts c pairs
  unfolding lookup
  group_hosts c = hosts-by_carrier c pairs []

  root_of_group :
      (c x : Text) → In x (sort_strings (get_or_else (lookup c (by_carrier pairs [])) [])) → r x ≡ c
  root_of_group c x i =
      let j = In-of_sort_strings x (get_or_else (lookup c (by_carrier pairs [])) []) i in
      ((In-hosts_iff r c x nodes).0 (rw (group_hosts c) at j)).1

  same_root : (x y : Text) → Together x y grouped → r x ≡ r y
  same_root x y (g, i, ix, iy) =
      let (c, e) =
        groups_of-In (by_carrier pairs []) (sorted_keys (by_carrier pairs [])) g
          (sort_islands-In g _ i) in
      root_of_group c x (rw e at ix) ∙ sym (root_of_group c y (rw e at iy))

  In-group :
      (c x : Text) → In x nodes → r x ≡ c → In x (get_or_else (lookup c (by_carrier pairs [])) [])
  In-group c x i e = rw (group_hosts c) ((In-hosts_iff r c x nodes).1 (i, e))

  together : (x y : Text) → In x nodes → In y nodes → r x ≡ r y → Together x y grouped
  together x y ix iy e =
      let groups = by_carrier pairs [] in
      let nodes_of = get_or_else (lookup (r y) groups) [] in
      let jx = In-group (r y) x ix e in
      let jy = In-group (r y) y iy refl in
      (
        sort_strings nodes_of,
        In-sort_islands (sort_strings nodes_of) _
            (In-groups_of groups (sorted_keys groups) (r y) (key_of groups (r y) x jx)),
        In-sort_strings x nodes_of jx,
        In-sort_strings y nodes_of jy,
      )

all_nodes : (ns nodes : List Text) → ((n : Text) → In n ns → In n nodes) → All (λ n. In n nodes) ns
all_nodes [] nodes f = tt
all_nodes (n ∷ ns) nodes f = (f n (inl refl), all_nodes ns nodes (λ m i. f m (inr i)))

-- Two nodes are on one island exactly if edges join them, in either direction and over any number of
-- nodes.
pub islands-Together_iff :
    (nodes : List Text) (es : List Pair) (x y : Text)
    → All (IsEdge nodes es) es
    → In x nodes
    → In y nodes
    → Together x y (islands nodes es) ↔ Joined es x y
unfolding islands
islands-Together_iff nodes es x y a ix iy =
    let fuel = suc (length es) in
    let parent = self_parents nodes [] in
    let prog =
      link_all-Progress nodes es fuel es parent (λ n. n) (λ n. 0) 0 (self_parents-IsLinked nodes es)
        (omega arith) a in
    let r = prog.roots in
    let linked = prog.linked in
    let last =
      rooted_lem nodes es fuel (link_all fuel parent es) r prog.heights (0 + length es) nodes linked
        (omega arith) (all_nodes nodes nodes (λ n i. i)) in
    rw last (
      λ t.
          Joined-trans (linked.joined x ix)
            (rw (same_root r nodes x y t) (Joined-sym (linked.joined y iy))),
      λ j. together r nodes x y ix iy (root_of_joined r es prog.agree j),
    )

module _ {F : Type 0} (carrier : Text) (nodes : List Text) where
  -- The ends of a branch are nodes of the network.
  ends_of :
      (l : Transmission F)
      → joins carrier (self_parents nodes []) l ≡ true
      → In l.from nodes × In l.to nodes
  ends_of l t =
      let ends = (&&-true t).1 in
      let (a, b) = &&-true ends in (In-of_self nodes l.from a, In-of_self nodes l.to b)

  branches_are :
      (arcs : Map (Transmission F)) (es : List Pair)
      → ((e : Pair) → In e (branches carrier (self_parents nodes []) arcs) → In e es)
      → All (IsEdge nodes es) (branches carrier (self_parents nodes []) arcs)
  unfolding branches
  branches_are [] es f = tt
  branches_are ((id, l) ∷ arcs) es f = elim (Bool-cases (joins carrier (self_parents nodes []) l)) [
    | inl s ↦
        let g = rw s at f in
        let (a, b) = ends_of l s in
        rw s ((a, b, g (l.from, l.to) (inl refl)), branches_are arcs es (λ e i. g e (inr i)))
    | inr s ↦ rw s (branches_are arcs es (rw s at f))
  ]

-- For any network, of all the nodes of `acIslands` two are on one island exactly if a chain of branches
-- joins them: active arcs of the carrier with electrical parameters, between nodes of the list, each
-- taken in either direction.
pub ac_islands-Together_iff :
    {F : Type 0} (m : Model F) (carrier : Text) (nodes : List Text) (x y : Text)
    → In x nodes
    → In y nodes
    → Together x y (ac_islands m carrier nodes)
      ↔ Joined (branches carrier (self_parents nodes []) m.transmission) x y
unfolding ac_islands
ac_islands-Together_iff m carrier nodes x y ix iy =
    let es = branches carrier (self_parents nodes []) m.transmission in
    islands-Together_iff nodes es x y (branches_are carrier nodes m.transmission es (λ e i. i)) ix
      iy

hosts_of_rooted :
    (fuel : ℕ) (p : Parents) (c x : Text) (ns : List Text)
    → In x (hosts c (rooted fuel p ns))
    → In x ns
unfolding rooted
hosts_of_rooted fuel p c x [] i = absurd i
hosts_of_rooted fuel p c x (n ∷ ns) i = elim (Bool-cases (str_eq (find_root fuel p n).0 c)) [
  | inl s ↦ elim (rw s at i) [
    | inl e ↦ inl e
    | inr j ↦ inr (hosts_of_rooted fuel (find_root fuel p n).1 c x ns j)
  ]
  | inr s ↦ inr (hosts_of_rooted fuel (find_root fuel p n).1 c x ns (rw s at i))
]

In-of_islands :
    (nodes : List Text) (es : List Pair) (g : List Text) (x : Text)
    → In g (islands nodes es)
    → In x g
    → In x nodes
unfolding islands lookup
In-of_islands nodes es g x i ix =
    let fuel = suc (length es) in
    let parent = link_all fuel (self_parents nodes []) es in
    let groups = by_carrier (rooted fuel parent nodes) [] in
    let (c, e) = groups_of-In groups (sorted_keys groups) g (sort_islands-In g _ i) in
    let j = In-of_sort_strings x (get_or_else (lookup c groups) []) (rw e at ix) in
    hosts_of_rooted fuel parent c x nodes
      (rw (hosts-by_carrier c (rooted fuel parent nodes) []) at j)

-- Each node of an island is one of the nodes.
pub In-of_island :
    {F : Type 0} (m : Model F) (carrier : Text) (nodes g : List Text) (x : Text)
    → In g (ac_islands m carrier nodes)
    → In x g
    → In x nodes
unfolding ac_islands
In-of_island m carrier nodes g x i ix =
    In-of_islands nodes (branches carrier (self_parents nodes []) m.transmission) g x i ix
