-- ===== src/Tests/Interning.antt =====
-- Inline series: a node with its weather, a load with its profile, and what a second run does.
use meme.Base.{
  ℕ, ◌≡◌, refl, strip_prefix, trim_prefix, none, some, List, [], ◌∷◌, Text, codes, lookup, insert,
  has_key, has_prefix, str_eq, str_lt, sorted_keys, sort_strings, insert_sorted, str_eq_iff, Bool,
  true, false,
}
use meme.Model.Types.{Value, Node, Technology, Model}
use meme.Model.Values.{is_series, is_inline, series_id}
use meme.Model.Ids.{intern_key, add_parts}
use meme.Model.Intern.{
  squatter, ◌>>=◌, keep_as, intern_inline_series, intern_value, intern, intern_at, intern_keys,
  intern_entries, intern_electrical, intern_operation, intern_storage, intern_source,
  intern_performance, intern_cost, intern_override, intern_tech, intern_climate, intern_node,
  intern_arc, intern_side, intern_trade, intern_slots,
}
use meme.Model.Intern.Pass.{SameOutside}
use meme.Model.Intern.Interned.{Interned, intern_inline_series-Interned, intern_inline_series_idem}
use meme.Model.Intern.Squatters.{intern_inline_series-accepts}
use meme.Tests.Plant.{network, node, load, series}

abbrev array : List ℕ → Value ℕ
array xs = record { scalar = none; ref = []; inline = xs; indexed = none }

abbrev weather : Node ℕ
weather = record (node (codes "South")) { climate = (codes "ghi", array (3 ∷ 4 ∷ [])) ∷ [] }

abbrev profiled : Technology ℕ
profiled = record load { demand_profile = some (array (5 ∷ 6 ∷ [])) }

abbrev measured : Model ℕ
measured = record network {
  nodes = (codes "south", weather) ∷ [];
  technologies = (codes "load", profiled) ∷ [];
  timeseries = (codes "wind", series (1 ∷ [])) ∷ [];
}

-- The second run meets the weather's own entry as a name that nothing references.
twice :
    (lookup (codes "_inline:tech:load:demand_profile") (intern_inline_series measured).0.timeseries
      ≡ some (series (5 ∷ 6 ∷ [])))
    × ((intern_inline_series (intern_inline_series measured).0).1
        ≡ some (codes "_inline:node:south:ghi"))
unfolding lookup intern_inline_series intern_slots ◌>>=◌ keep_as intern_entries intern_keys
    sorted_keys str_eq intern_arc intern intern_node intern_climate is_inline intern_value is_series
    insert insert_sorted sort_strings has_prefix str_lt strip_prefix trim_prefix add_parts
    intern_key intern_at intern_cost intern_electrical intern_operation intern_override
    intern_performance intern_side intern_source intern_storage intern_tech intern_trade squatter
    series_id
twice = (refl, refl)

measured-unreserved :
    (id : Text) → has_key id measured.timeseries ≡ true → has_prefix id (codes "_inline:") ≡ false
unfolding has_key lookup
measured-unreserved id h = named (str_eq (codes "wind") id) refl
  where
    named : (b : Bool) → str_eq (codes "wind") id ≡ b → has_prefix id (codes "_inline:") ≡ false
    named true e =
        rw (← (str_eq_iff (codes "wind") id).0 e) (unfold has_prefix strip_prefix in refl)
    named false e = cc

intern_inline_series-accepts_example : (intern_inline_series measured).1 ≡ none
intern_inline_series-accepts_example = intern_inline_series-accepts measured measured-unreserved

intern_inline_series-Interned_example :
    Interned (intern_inline_series measured).0
    × SameOutside measured.timeseries (intern_inline_series measured).0.timeseries
intern_inline_series-Interned_example = intern_inline_series-Interned measured

intern_inline_series_idem_example :
    (intern_inline_series (intern_inline_series measured).0).0 ≡ (intern_inline_series measured).0
intern_inline_series_idem_example = intern_inline_series_idem measured
