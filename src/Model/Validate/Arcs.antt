-- ===== src/Model/Validate/Arcs.antt =====
-- The checks of transmission arcs in Model.Validate, and `validateElectrical`.
pub mod Branch
use meme.Base.{
  Bool, true, false, not, ◌&&◌, ◌||◌, Option, none, some, List, [], ◌∷◌, ◌++◌, if◌then◌else◌,
  Float64, ℤ, pos, ltb_ℤ, Text, codes, str_eq, Map, has_key, lookup,
}
use meme.Model.Types.{
  Value, NodeElectrical, Node, TransmissionElectrical, TransportEnergy, Transmission, Model,
}
use meme.Model.Values.{reduce}
use meme.Model.Electrical.{per_length}
use meme.Model.Enums.{line, transformer, valid_kind, valid_cost_basis}
use meme.Model.Checks.{
  Problem, report, given, negative, not_positive, outside_unit, validate_capacity,
}
use meme.Model.Validate.Blocks.{outside_half_open, validate_costs}
use meme.Model.Validate.Times.{has_series}

module _ {F : Type 0} where
  -- `m.Nodes[id].Electrical`, nil of a node that is not there
  abbrev pub node_electrical : Map (Node F) → Text → Option (NodeElectrical F)
  node_electrical nodes id = elim (lookup id nodes) [ none ↦ none | some n ↦ n.electrical ]

-- `p != nil && *p < 1`
abbrev pub below_one : Option ℤ → Bool
below_one none = false
below_one (some n) = ltb_ℤ n (pos 1)

module _ (fl : Float64) where
  open fl use {F, zero, one, lt, le, eq, mul}

  -- `from != nil && to != nil && from.VNom != to.VNom`
  abbrev pub levels_differ : Option (NodeElectrical F) → Option (NodeElectrical F) → Bool
  levels_differ (some from) (some to) = not (eq from.v_nom to.v_nom)
  levels_differ _ _ = false

  -- `p == nil || *p <= 0`
  abbrev pub missing_or_not_positive : Option F → Bool
  missing_or_not_positive none = true
  missing_or_not_positive (some x) = le x zero

  -- The checks of an impedance that is given per length
  unfoldable pub length_checks : Transmission F → TransmissionElectrical F → List (Bool × Text)
  length_checks l e =
      (
        not (eq e.r zero) || not (eq e.x zero),
        codes
            "give either electrical.r and x or electrical.r_per_length and x_per_length, not both",
      )
      ∷ (
        not (given l.distance),
        codes "electrical.r_per_length and electrical.x_per_length need distance",
      )
      ∷ (missing_or_not_positive e.x_per_length, codes "electrical.x_per_length must be positive")
      ∷ (negative fl e.r_per_length, codes "electrical.r_per_length must not be negative")
      ∷ []

  -- The checks of an impedance that is given itself
  unfoldable pub literal_checks : TransmissionElectrical F → List (Bool × Text)
  literal_checks e =
      (le e.x zero, codes "electrical.x must be positive")
      ∷ (lt e.r zero, codes "electrical.r must not be negative")
      ∷ []

  -- The checks of the series impedance
  unfoldable pub impedance_checks : Transmission F → TransmissionElectrical F → List (Bool × Text)
  unfolding per_length length_checks literal_checks
  impedance_checks l e = if per_length e then length_checks l e else literal_checks e

  -- The checks of `validateElectrical` behind the impedance, in order.
  unfoldable pub branch_checks :
      Map (Node F) → Transmission F → TransmissionElectrical F → List (Bool × Text)
  branch_checks nodes l e =
      (
        (given e.b || given e.g) && str_eq e.kind transformer,
        codes "electrical.b and electrical.g apply to a line only",
      )
      ∷ (negative fl e.g, codes "electrical.g must not be negative")
      ∷ (
        given e.phase_shift && str_eq e.kind line,
        codes "electrical.phase_shift applies to a transformer only",
      )
      ∷ (outside_half_open fl e.max_loading, codes "electrical.max_loading must be within (0,1]")
      ∷ (not_positive fl e.s_nom, codes "electrical.s_nom must be positive")
      ∷ (below_one e.num_parallel, codes "electrical.num_parallel must be at least 1")
      ∷ (
        given e.tap_ratio && str_eq e.kind line,
        codes "electrical.tap_ratio applies to a transformer only",
      )
      ∷ (not_positive fl e.tap_ratio, codes "electrical.tap_ratio must be positive")
      ∷ (
        not l.bidirectional,
        codes "an electrical arc carries power both ways; set bidirectional: true",
      )
      ∷ (
        str_eq e.kind line
            && levels_differ (node_electrical nodes l.from) (node_electrical nodes l.to),
        codes
            "a line connects nodes of equal nominal voltage (%s %g kV, %s %g kV); use kind \"transformer\"",
      )
      ∷ []

  -- `validateElectrical`
  unfoldable pub validate_electrical :
      Text → Map (Node F) → Transmission F → Option (TransmissionElectrical F) → List Problem
  unfolding impedance_checks branch_checks
  validate_electrical place nodes l none = []
  validate_electrical place nodes l (some e) =
      report place (
        (not (valid_kind e.kind), codes "electrical.kind %q is invalid (line or transformer)") ∷ [])
      ++ (report place (impedance_checks l e) ++ report place (branch_checks nodes l e))

  -- `l.LossPerDistance` against the distance: the arc would lose its whole flow
  abbrev pub loses_all : Option F → Option F → Bool
  loses_all (some loss) (some d) = le one (mul loss d)
  loses_all _ _ = false

  -- The checks of the energy that the transport takes
  unfoldable pub energy_checks :
      Model F → Transmission F → Option (TransportEnergy F) → List (Bool × Text)
  energy_checks m l none = []
  energy_checks m l (some ec) =
      (not (has_key ec.carrier m.carriers), codes "energy_consumption carrier %q not defined")
      ∷ (
        lt ec.per_flow zero || lt ec.per_flow_distance zero,
        codes "energy_consumption rates must not be negative",
      )
      ∷ (
        lt zero ec.per_flow_distance && not (given l.distance),
        codes "energy_consumption.per_flow_distance needs distance",
      )
      ∷ []

  -- The ends and ranges of an arc
  unfoldable pub arc_checks : Model F → Transmission F → List (Bool × Text)
  arc_checks m l =
      (not (has_key l.carrier m.carriers), codes "carrier %q not defined")
      ∷ (not (has_key l.from m.nodes), codes "from-node %q not defined")
      ∷ (not (has_key l.to m.nodes), codes "to-node %q not defined")
      ∷ (str_eq l.from l.to && not (str_eq l.from []), codes "from and to are the same node %q")
      ∷ (outside_half_open fl (reduce l.efficiency), codes "efficiency must be within (0,1]")
      ∷ (negative fl l.distance, codes "distance must not be negative")
      ∷ (negative fl l.loss_per_distance, codes "loss_per_distance must not be negative")
      ∷ (
        loses_all l.loss_per_distance l.distance,
        codes "loss_per_distance * distance is %g; the arc would lose its whole flow",
      )
      ∷ (
        outside_unit fl l.min_flow,
        codes "min_flow must be within [0,1] (fraction of arc capacity)",
      )
      ∷ []

  -- The checks behind the electrical ones
  unfoldable pub arc_end_checks : Model F → Transmission F → List (Bool × Text)
  arc_end_checks m l =
      (not (has_series m.timeseries l.dispatch), codes "time-series %q not defined")
      ∷ (
        given l.dispatch && given l.electrical,
        codes
            "dispatch and electrical are mutually exclusive (a line's flow is a result of the power flow)",
      )
      ∷ (not_positive fl l.lifetime, codes "lifetime must be positive")
      ∷ (negative fl l.interest_rate, codes "interest_rate must not be negative")
      ∷ (not (valid_cost_basis l.cost_basis), codes "cost_basis %q is invalid")
      ∷ []

  -- The checks of one arc
  unfoldable pub arc_problems : Model F → Text → Transmission F → List Problem
  unfolding arc_checks arc_end_checks energy_checks validate_electrical
  arc_problems m id l =
      let place = codes "transmission " ++ id in
      report place (arc_checks m l)
      ++ (report place (energy_checks m l l.energy_consumption)
          ++ (validate_capacity fl place l.capacity
              ++ (validate_costs fl place l.costs
                  ++ (validate_electrical place m.nodes l l.electrical
                      ++ report place (arc_end_checks m l)))))
