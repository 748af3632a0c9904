-- ===== src/Model/Overrides.antt =====
-- Per-node overrides: `Technology.At` (internal/model/constraint.go).
pub mod Merge
use meme.Base.{ℕ, Option, none, some, List, [], ◌∷◌, Text, Map, lookup, insert, get_or_else}
use meme.Model.Types.{CostClass, NodeOverride, Technology}

-- `if ov.X != nil { e.X = ov.X }` of a pointer
abbrev pub or_else : {A : Type 0} → Option A → Option A → Option A
or_else none base = base
or_else (some x) base = some x

module _ {F : Type 0} where
  -- The loop that puts the override's cost classes into the copy of the base's.
  unfoldable pub merge_into : Map (CostClass F) → Map (CostClass F) → Map (CostClass F)
  merge_into merged [] = merged
  merge_into merged ((k, c) ∷ over) = merge_into (insert k c merged) over

  apply_override : Option (NodeOverride F) → Technology F → Technology F
  unfolding merge_into
  apply_override none t = t
  apply_override (some ov) t = record t {
    carrier_in = get_or_else ov.carrier_in t.carrier_in;
    carrier_out = get_or_else ov.carrier_out t.carrier_out;
    efficiency = or_else ov.efficiency t.efficiency;
    capacity = or_else ov.capacity t.capacity;
    operation = or_else ov.operation t.operation;
    storage = or_else ov.storage t.storage;
    demand_profile = or_else ov.demand_profile t.demand_profile;
    dispatch = or_else ov.dispatch t.dispatch;
    electrical = or_else ov.electrical t.electrical;
    area = or_else ov.area t.area;
    source = or_else ov.source t.source;
    native = or_else ov.native t.native;
    costs = merge_into t.costs ov.costs;
  }

  -- `At`. An override without cost classes leaves the base's, which is what merging none does.
  unfoldable pub tech_at : Technology F → Text → Technology F
  unfolding apply_override
  tech_at t node = apply_override (lookup node t.node_overrides) t
