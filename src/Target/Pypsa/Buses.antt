-- ===== src/Target/Pypsa/Buses.antt =====
-- The buses of the PyPSA emitter (internal/target/pypsa/buses.go), the copperplate's hubs (planning.go)
-- and the constraints that become a GlobalConstraint (constraints.go). The grid is a Go map that is
-- read as a set: the order of the list and its repetitions do not count.
pub mod Marked
pub mod Hubs
use meme.Base.{
  Bool, true, false, not, ◌&&◌, ◌||◌, Option, none, some, List, [], ◌∷◌, ◌++◌, map, if◌then◌else◌,
  ltb, length, Float64, Text, codes, str_eq, Map, lookup, insert, sort_strings, sorted_keys,
  get_or_else,
}
use meme.Model.Types.{Flow, TransportEnergy, Technology, Transmission, Term, Constraint, Model}
use meme.Model.Run.{Job}
use meme.Model.Overrides.{tech_at}
use meme.Model.Validate.Techs.{no_element}

abbrev pub Pair : Type 0
Pair = Text × Text

-- `BusID`
unfoldable pub bus_id : Text → Text → Text
bus_id node carrier = node ++ (codes "::" ++ carrier)

-- `mark`
unfoldable pub mark : Text → Text → List Pair → List Pair
mark node carrier grid =
    if not (str_eq node []) && not (str_eq carrier []) then (node, carrier) ∷ grid else grid

unfoldable pub mark_each : Text → List Text → List Pair → List Pair
mark_each node [] grid = grid
mark_each node (c ∷ cs) grid = mark node c (mark_each node cs grid)

module _ {F : Type 0} where
  -- The carriers that a technology uses at a node: its own, and those of the flows that it has there
  abbrev pub carriers_at : Technology F → Text → List Text
  carriers_at t n = t.carrier_in ++ (t.carrier_out ++ map (λ f. f.carrier) (tech_at t n).flows)

  unfoldable pub tech_marks : Technology F → List Text → List Pair → List Pair
  tech_marks t [] grid = grid
  tech_marks t (n ∷ ns) grid = mark_each n (carriers_at t n) (tech_marks t ns grid)

  unfoldable pub techs_marks : Map (Technology F) → List Pair → List Pair
  techs_marks [] grid = grid
  techs_marks ((id, t) ∷ techs) grid = tech_marks t t.node (techs_marks techs grid)

  abbrev energy_mark : Text → Option (TransportEnergy F) → List Pair → List Pair
  energy_mark node none grid = grid
  energy_mark node (some e) grid = mark node e.carrier grid

  abbrev pub arc_marks : Transmission F → List Pair → List Pair
  arc_marks l grid =
      mark l.from l.carrier (mark l.to l.carrier (energy_mark l.from l.energy_consumption grid))

  unfoldable pub arcs_marks : Map (Transmission F) → List Pair → List Pair
  arcs_marks [] grid = grid
  arcs_marks ((id, l) ∷ arcs) grid = arc_marks l (arcs_marks arcs grid)

  -- `busGrid`
  unfoldable pub bus_grid : Model F → List Pair
  bus_grid m = techs_marks m.technologies (arcs_marks m.transmission [])

-- One carrier's copperplate
pub record CopperHub : Type 0 where
  pub carrier : Text
  pub bus : Text
  pub nodes : List Text

-- `byCarrier`: the nodes that host each carrier, in the order of the pairs
unfoldable pub by_carrier : List Pair → Map (List Text) → Map (List Text)
by_carrier [] hosts = hosts
by_carrier ((node, carrier) ∷ pairs) hosts =
    by_carrier pairs (insert carrier (get_or_else (lookup carrier hosts) [] ++ node ∷ []) hosts)

abbrev pub hub_of : Text → List Text → CopperHub
hub_of carrier nodes = record {
  carrier = carrier;
  bus = codes "copperplate::" ++ carrier;
  nodes = sort_strings nodes;
}

unfoldable pub hubs_of : Map (List Text) → List Text → List CopperHub
hubs_of hosts [] = []
hubs_of hosts (carrier ∷ carriers) =
    let nodes = get_or_else (lookup carrier hosts) [] in
    let rest = hubs_of hosts carriers in
    if ltb (length nodes) 2 then rest else hub_of carrier nodes ∷ rest

-- `copperplateHubs`
unfoldable pub copperplate_hubs : {F : Type 0} → Job F → List Pair → List CopperHub
copperplate_hubs j pairs =
    let hosts = by_carrier pairs [] in
    if j.experiment.copperplate then hubs_of hosts (sorted_keys hosts) else []

module _ (fl : Float64) where
  open fl use {F, one, eq}

  -- Every term has the variable, the weight one and no scope.
  unfoldable pub uniform : Text → List (Term F) → Bool
  uniform kind [] = true
  uniform kind (t ∷ ts) =
      (str_eq t.variable kind && eq t.coefficient one)
      && ((no_element t.techs && no_element t.nodes) && uniform kind ts)

  abbrev only : List Text → Option Text
  only (c ∷ []) = some c
  only _ = none

  abbrev typed : Text → Option Text → Option (Text × Text)
  typed type none = none
  typed type (some c) = some (type, c)

  -- The type and the carrier for a variable and the carriers of the first term
  unfoldable pub type_of : Text → List Text → Option (Text × Text)
  type_of kind carriers =
      if str_eq kind (codes "emissions")
      then some (codes "primary_energy", get_or_else (only carriers) (codes "co2_emissions"))
      else if str_eq kind (codes "flow_out")
      then typed (codes "operational_limit") (only carriers)
      else if str_eq kind (codes "capacity")
      then typed (codes "tech_capacity_expansion_limit") (only carriers)
      else none

  global_of : List (Term F) → Option (Text × Text)
  global_of [] = none
  global_of (t ∷ ts) = if uniform t.variable (t ∷ ts) then type_of t.variable t.carriers else none

  -- `globalType`; `none` is its false
  unfoldable pub global_type : Constraint F → Option (Text × Text)
  unfolding global_of
  global_type c = global_of c.terms
