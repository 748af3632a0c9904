-- ===== src/Target/Pypsa/Islands.antt =====
-- The islands of the AC network, `acIslands` of internal/target/pypsa/powerflow.go: a union-find over the
-- network's nodes, whose map of parents the steps pass on. A round of `find` takes one unit of fuel.
pub mod Forest
pub mod Find
pub mod Joined
pub mod Linked
pub mod Rooted
pub mod Groups
pub mod Partition
use meme.Base.{
  ℕ, zero, suc, Bool, true, false, not, ◌&&◌, ◌||◌, Option, none, some, List, [], ◌∷◌, ◌++◌,
  if◌then◌else◌, length, Text, str_eq, str_lt, Map, lookup, insert, has_key, sort_strings,
  sorted_keys, get_or_else, is_some,
}
use meme.Model.Types.{Transmission, Model}
use meme.Target.Pypsa.Buses.{Pair, by_carrier}

abbrev pub Parents : Type 0
Parents = Map Text

-- `parent[n]`
abbrev pub up : Parents → Text → Text
up parent n = get_or_else (lookup n parent) []

-- `find`: the root, and the parents with the path halved
unfoldable pub find_root : ℕ → Parents → Text → Text × Parents
find_root zero parent n = (n, parent)
find_root (suc fuel) parent n =
    let grand = up parent (up parent n) in
    let rest = find_root fuel (insert n grand parent) grand in
    if str_eq (up parent n) n then (n, parent) else rest

-- `parent[find(l.From)] = find(l.To)`
unfoldable pub link : ℕ → Parents → Pair → Parents
link fuel parent (from, to) =
    let (a, parent1) = find_root fuel parent from in
    let (b, parent2) = find_root fuel parent1 to in insert a b parent2

unfoldable pub link_all : ℕ → Parents → List Pair → Parents
link_all fuel parent [] = parent
link_all fuel parent (e ∷ es) = link_all fuel (link fuel parent e) es

unfoldable pub self_parents : List Text → Parents → Parents
self_parents [] parent = parent
self_parents (n ∷ ns) parent = self_parents ns (insert n n parent)

-- `IsActive`
abbrev pub is_active : Option Bool → Bool
is_active none = true
is_active (some b) = b

module _ {F : Type 0} where
  -- The arcs that join nodes of the network. The loop assigns under keys that stand: all its tests of
  -- keys read those of the first parents.
  abbrev joins : Text → Parents → Transmission F → Bool
  joins carrier parent l =
      (str_eq l.carrier carrier && (is_some l.electrical && is_active l.active))
      && (has_key l.from parent && has_key l.to parent)

  unfoldable pub branches : Text → Parents → Map (Transmission F) → List Pair
  branches carrier parent [] = []
  branches carrier parent ((id, l) ∷ arcs) =
      let rest = branches carrier parent arcs in
      if joins carrier parent l then (l.from, l.to) ∷ rest else rest

-- The root of each node
unfoldable pub rooted : ℕ → Parents → List Text → List Pair
rooted fuel parent [] = []
rooted fuel parent (n ∷ ns) =
    let (r, parent') = find_root fuel parent n in (n, r) ∷ rooted fuel parent' ns

unfoldable pub groups_of : Map (List Text) → List Text → List (List Text)
groups_of groups [] = []
groups_of groups (r ∷ rs) = sort_strings (get_or_else (lookup r groups) []) ∷ groups_of groups rs

-- Sorting by the first node
abbrev pub first : List Text → Text
first [] = []
first (n ∷ ns) = n

unfoldable pub insert_island : List Text → List (List Text) → List (List Text)
insert_island g [] = g ∷ []
insert_island g (h ∷ hs) =
    let rest = insert_island g hs in if str_lt (first h) (first g) then h ∷ rest else g ∷ h ∷ hs

unfoldable pub sort_islands : List (List Text) → List (List Text)
sort_islands [] = []
sort_islands (g ∷ gs) = insert_island g (sort_islands gs)

-- The islands of nodes that are joined by edges
unfoldable pub islands : List Text → List Pair → List (List Text)
islands nodes edges =
    let fuel = suc (length edges) in
    let parent = link_all fuel (self_parents nodes []) edges in
    let groups = by_carrier (rooted fuel parent nodes) [] in
    sort_islands (groups_of groups (sorted_keys groups))

-- `acIslands`
unfoldable pub ac_islands : {F : Type 0} → Model F → Text → List Text → List (List Text)
ac_islands m carrier nodes = islands nodes (branches carrier (self_parents nodes []) m.transmission)
