-- ===== src/Target/Pypsa/Network.antt =====
-- The AC network of the PyPSA target and what an optimization under the voltage law asks of it
-- (internal/target/pypsa/powerflow.go), with the systemwide bounds of emitter.go.
pub mod Lawful
use meme.Base.{
  ℕ, Bool, true, false, not, ◌&&◌, ◌==◌, Option, none, some, List, [], ◌∷◌, ◌++◌, if◌then◌else◌,
  ltb, length, Float64, Text, codes, str_eq, Map, lookup, insert, sorted_keys,
}
use meme.Model.Types.{Capacity, NodeElectrical, Node, Technology, Transmission, Constraint, Model}
use meme.Model.Run.{NetworkOptions, Job}
use meme.Model.Enums.{supply}
use meme.Model.Ids.{contains_str}
use meme.Model.Electrical.{rating}
use meme.Model.Checks.{Problem, report, given}
use meme.Model.Validate.Each.{each, each_entry}
use meme.Model.Validate.Techs.{no_element}
use meme.Target.Gates.{mode_place}
use meme.Target.Gates.Uses.{expandable_cap}
use meme.Target.Pypsa.Buses.{Pair, bus_grid}
use meme.Target.Pypsa.Islands.{first}

-- `strings.Cut` at a byte: what stands before it, and behind it where it is found
unfoldable pub cut_at : ℕ → Text → Text × Option Text
cut_at c [] = ([], none)
cut_at c (x ∷ xs) = let (a, b) = cut_at c xs in if x == c then ([], some xs) else (x ∷ a, b)

-- What the name of a slack resolves to: a component and its node, or why there is none
pub data Slack : Type 0 where
  unresolved : Text → Slack
  balancing : Text → Text → Slack

module _ {F : Type 0} where
  unfoldable pub seen_carriers : Map (Transmission F) → Map Bool → Map Bool
  seen_carriers [] seen = seen
  seen_carriers ((id, l) ∷ arcs) seen =
      seen_carriers arcs (if given l.electrical then insert l.carrier true seen else seen)

  -- `electricalCarriers`
  unfoldable pub electrical_carriers : Model F → List Text
  electrical_carriers m = sorted_keys (seen_carriers m.transmission [])

  -- `componentName`
  unfoldable pub component_name : Text → Technology F → Text → Text
  component_name id t node = if ltb 1 (length t.node) then id ++ b'@' ∷ node else id

  -- A supply technology on the network
  unfoldable pub supplies : Text → Technology F → Bool
  supplies carrier t = str_eq t.role supply && str_eq (first t.carrier_out) carrier

  -- A technology of a valid model has a node, so `t.Node[0]` is its first.
  unfoldable pub slack_at : Text → Technology F → Option Text → Slack
  slack_at id t (some n) =
      if contains_str t.node n
      then balancing (component_name id t n) n
      else unresolved (codes "experiment.power_flow.slack %q: tech %q is not placed at node %q")
  slack_at id t none =
      if ltb 1 (length t.node)
      then unresolved (
          codes
            "experiment.power_flow.slack %q: tech %q is placed at %v; spell the slack as id@node")
      else balancing (component_name id t (first t.node)) (first t.node)

  slack_tech : Text → Text → Option Text → Option (Technology F) → Slack
  slack_tech carrier id n none =
      unresolved
        (codes "experiment.power_flow.slack %q names no supply technology on the %s network")
  slack_tech carrier id n (some t) =
      if supplies carrier t
      then slack_at id t n
      else unresolved
          (codes "experiment.power_flow.slack %q names no supply technology on the %s network")

  -- `slackComponent`
  unfoldable pub slack_component : Model F → Text → Text → Slack
  unfolding slack_tech
  slack_component m carrier slack =
      let (id, n) = cut_at b'@' slack in
      if str_eq slack []
      then unresolved (
          codes
            "experiment.power_flow.slack is required: the supply technology that balances the AC network (id, or id@node)")
      else slack_tech carrier id n (lookup id m.technologies)

-- The nodes of the buses of a carrier, each once: the grid is a set.
unfoldable pub nodes_on : Text → List Pair → Map Bool → Map Bool
nodes_on carrier [] seen = seen
nodes_on carrier ((n, c) ∷ grid) seen =
    nodes_on carrier grid (if str_eq c carrier then insert n true seen else seen)

unfoldable pub ac_nodes : Text → List Pair → List Text
ac_nodes carrier grid = sorted_keys (nodes_on carrier grid [])

-- The loops that want one electrical carrier
unfoldable pub on_network : Text → Text → (Text → List Problem) → List Text → List Problem
on_network absent several f [] = (mode_place, absent) ∷ []
on_network absent several f (c ∷ []) = f c
on_network absent several f (c ∷ d ∷ cs) = (mode_place, several) ∷ []

module _ (fl : Float64) where
  open fl use {F, zero, one, le}

  abbrev no_voltage : Option (NodeElectrical F) → Bool
  no_voltage none = true
  no_voltage (some e) = le e.v_nom zero

  -- A node that is not in the map reads as one without electrical parameters.
  abbrev pub no_level : Option (Node F) → Bool
  no_level none = true
  no_level (some n) = no_voltage n.electrical

  abbrev pub level_problem : Model F → Text → List Problem
  level_problem m n = report n (
      (
        no_level (lookup n m.nodes),
        codes
            "node %q hosts %s components but has no electrical.v_nom (the voltage level of its AC bus)",
      )
      ∷ [])

  unfoldable pub level_problems : Model F → List Text → List Problem
  level_problems m = each (level_problem m)

  bound_of : Text → Text → Text → Option F → List (Constraint F) → List (Constraint F)
  bound_of id suffix sense none rest = rest
  bound_of id suffix sense (some b) rest =
      record {
        name = id ++ suffix;
        terms =
            record {
              coefficient = one;
              variable = codes "capacity";
              techs = id ∷ [];
              carriers = [];
              nodes = [];
            }
            ∷ [];
        sense = sense;
        bound = b;
        period = [];
      }
      ∷ rest

  -- `add` of `systemwideConstraints`
  unfoldable pub bounds_of : Text → Option (Capacity F) → List (Constraint F) → List (Constraint F)
  unfolding bound_of
  bounds_of id none rest = rest
  bounds_of id (some c) rest =
      bound_of id (codes "_systemwide_max") (codes "<=") c.systemwide_max
        (bound_of id (codes "_systemwide_min") (codes ">=") c.systemwide_min rest)

  capacity_at : {V : Type 0} → (V → Option (Capacity F)) → Option V → Option (Capacity F)
  capacity_at f none = none
  capacity_at f (some v) = f v

  bounds_over :
      {V : Type 0}
      → (V → Option (Capacity F))
      → Map V
      → List Text
      → List (Constraint F)
      → List (Constraint F)
  unfolding capacity_at
  bounds_over f m [] rest = rest
  bounds_over f m (k ∷ ks) rest = bounds_of k (capacity_at f (lookup k m)) (bounds_over f m ks rest)

  -- `systemwideConstraints`
  unfoldable pub systemwide_constraints : Model F → List (Constraint F)
  unfolding bounds_over
  systemwide_constraints m =
      bounds_over (λ t. t.capacity) m.technologies (sorted_keys m.technologies)
        (bounds_over (λ l. l.capacity) m.transmission (sorted_keys m.transmission) [])

  abbrev pub is_secured : Option (NetworkOptions F) → Bool
  is_secured none = false
  is_secured (some nw) = given nw.security

  -- A branch without a rating that is not expandable either
  abbrev pub unrated : Transmission F → Bool
  unrated l =
      given l.electrical
      && (not (given (rating fl l.electrical l.capacity)) && not (expandable_cap l.capacity))

  abbrev pub rating_problem : Text → Transmission F → List Problem
  rating_problem id l = report (codes "transmission " ++ id) (
      (
        unrated l,
        codes
            "needs electrical.s_nom or capacity.existing (the branch rating), or an expandable capacity",
      )
      ∷ [])

  -- The checks once there is one network
  unfoldable pub voltage_law_problems : Job F → Text → List Problem
  voltage_law_problems j carrier =
      level_problems j.model (ac_nodes carrier (bus_grid j.model))
      ++ (each_entry rating_problem j.model.transmission
          ++ report mode_place (
              (
                is_secured j.experiment.network
                    && not (
                        no_element j.model.constraints
                        && no_element (systemwide_constraints j.model)),
                codes
                    "the security-constrained solve cannot apply portable constraints or systemwide capacity bounds (it builds its own model); drop them or the outages",
              )
              ∷ []))

  -- `validateLinearPowerFlow`, which never warns
  unfoldable pub linear_problems : Job F → List Problem
  linear_problems j =
      on_network
        (codes
          "network model \"linear_power_flow\" needs at least one transmission with electrical parameters (kind, r, x): the branches the voltage law applies to")
        (codes "electrical arcs span carriers %v; the voltage law applies to one AC network")
        (voltage_law_problems j) (electrical_carriers j.model)
