-- ===== src/Tests/Islands.antt =====
-- The islands of the PyPSA target's AC network.
use meme.Base.{
  ℕ, ◌≡◌, refl, ◌↔◌, inl, inr, none, some, false, List, [], ◌∷◌, Text, codes, str_eq, str_lt,
  lookup, insert, has_key, sorted_keys, sort_strings, insert_sorted,
}
use meme.Model.Types.{Model}
use meme.Target.Pypsa.Buses.{by_carrier}
use meme.Target.Pypsa.Islands.{
  find_root, link, link_all, self_parents, branches, rooted, groups_of, insert_island, sort_islands,
  islands, ac_islands,
}
use meme.Target.Pypsa.Islands.Joined.{Joined}
use meme.Target.Pypsa.Islands.Partition.{Together, ac_islands-Together_iff}
use meme.Tests.Plant.{network, arc}

-- The line's nodes, a node behind a line that is switched off, and one behind a controlled link
abbrev places : List Text
places = codes "north" ∷ codes "island" ∷ codes "south" ∷ codes "west" ∷ []

abbrev meshed : Model ℕ
meshed = record network {
  transmission =
      (codes "tie", arc)
      ∷ (codes "off", record arc { to = codes "island"; active = some false })
      ∷ (codes "dc", record arc { to = codes "west"; electrical = none })
      ∷ [];
}

meshed-islands :
    ac_islands meshed (codes "power") places
    ≡ (codes "island" ∷ []) ∷ (codes "north" ∷ codes "south" ∷ []) ∷ (codes "west" ∷ []) ∷ []
unfolding find_root link link_all self_parents branches rooted groups_of insert_island sort_islands
    islands ac_islands by_carrier str_eq str_lt lookup insert has_key sorted_keys sort_strings
    insert_sorted
meshed-islands = refl

ac_islands-Together_iff_example :
    Together (codes "north") (codes "south") (ac_islands meshed (codes "power") places)
    ↔ Joined
        (branches (codes "power") (self_parents places []) meshed.transmission)
        (codes "north")
        (codes "south")
ac_islands-Together_iff_example =
    ac_islands-Together_iff meshed (codes "power") places (codes "north") (codes "south") (inl refl)
      (inr (inr (inl refl)))
