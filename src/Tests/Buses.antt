-- ===== src/Tests/Buses.antt =====
-- The PyPSA emitter's buses, hubs and global constraints.
use meme.Base.{
  ℕ, ◌≡◌, refl, true, some, List, [], ◌∷◌, Text, codes, str_eq, str_lt, lookup, insert, sorted_keys,
  sort_strings, insert_sorted,
}
use meme.Model.Types.{NodeOverride, Technology, Model, Term, Constraint}
use meme.Model.Run.{Job}
use meme.Model.Overrides.{tech_at}
use meme.Target.Pypsa.Buses.{
  Pair, mark, mark_each, tech_marks, techs_marks, arcs_marks, bus_grid, by_carrier, hubs_of,
  copperplate_hubs, uniform, type_of, global_type,
}
use meme.Tests.Fixtures.{naturals, wind, grid, sweeping}
use meme.Tests.Plant.{network, no_override}

-- The wind turbine makes gas at its node instead.
abbrev gas_override : NodeOverride ℕ
gas_override = record no_override { carrier_out = some (codes "gas" ∷ []) }

abbrev turned : Technology ℕ
turned = record wind { node_overrides = (codes "north", gas_override) ∷ [] }

abbrev turned_grid : Model ℕ
turned_grid = record grid { technologies = (codes "wind", turned) ∷ []; transmission = [] }

-- The override's carrier has no bus.
turned-bus :
    ((tech_at turned (codes "north")).carrier_out ≡ codes "gas" ∷ [])
    × (bus_grid turned_grid ≡ (codes "north", codes "power") ∷ [])
unfolding tech_at lookup str_eq bus_grid techs_marks tech_marks mark_each mark arcs_marks
turned-bus = (refl, refl)

abbrev pairs : List Pair
pairs =
    (codes "north", codes "gas")
    ∷ (codes "north", codes "power")
    ∷ (codes "south", codes "power")
    ∷ []

abbrev joined : Job ℕ
joined = record {
  api_key = [];
  model = network;
  experiment = record (sweeping []) { copperplate = true };
}

joined-hubs :
    copperplate_hubs joined pairs
    ≡ record {
      carrier = codes "power";
      bus = codes "copperplate::power";
      nodes = codes "north" ∷ codes "south" ∷ [];
    }
      ∷ []
unfolding copperplate_hubs hubs_of by_carrier lookup insert str_eq str_lt sorted_keys sort_strings
    insert_sorted
joined-hubs = refl

abbrev output_of : Text → Term ℕ
output_of carrier = record {
  coefficient = 1;
  variable = codes "flow_out";
  techs = [];
  carriers = carrier ∷ [];
  nodes = [];
}

abbrev two_carriers : Constraint ℕ
two_carriers = record {
  name = codes "cap";
  terms = output_of (codes "gas") ∷ output_of (codes "power") ∷ [];
  sense = codes "<=";
  bound = 5;
  period = [];
}

-- The second term's carrier is not asked.
two_carriers-type :
    global_type naturals two_carriers ≡ some (codes "operational_limit", codes "gas")
unfolding global_type uniform type_of str_eq
two_carriers-type = refl
