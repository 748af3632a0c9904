-- ===== src/Target/Pypsa/Flow/Solvable.antt =====
-- What a job satisfies that `validatePowerFlow` (internal/target/pypsa/powerflow.go) has no problem with.
use meme.Base.{
  ◌≡◌, refl, Bool, true, false, not, ◌&&◌, some, List, [], ◌∷◌, ◌++◌, arith, In, All, Float64, Text,
  codes, str_eq, lookup,
}
use meme.Model.Types.{Technology, Transmission}
use meme.Model.Run.{Job}
use meme.Model.Electrical.{rating, slack_or_empty}
use meme.Model.Overrides.{tech_at}
use meme.Model.Checks.{given}
use meme.Model.Validate.Each.{
  each, each_entry, append-nil_left, append-nil_right, passed, report-nil_iff, each-nil_at,
  each-nil_iff, All-map, true_of_not, each_entry-nil_iff,
}
use meme.Target.Gates.{listing}
use meme.Target.Pypsa.Buses.{bus_grid}
use meme.Target.Pypsa.Islands.{self_parents, branches, ac_islands}
use meme.Target.Pypsa.Islands.Joined.{Joined}
use meme.Target.Pypsa.Islands.Partition.{ac_islands-Together_iff, In-of_island}
use meme.Target.Pypsa.Network.Lawful.{one_network}
use meme.Target.Pypsa.Network.{
  Slack, unresolved, balancing, electrical_carriers, component_name, slack_component, ac_nodes,
  no_level, level_problem, level_problems,
}
use meme.Target.Pypsa.Flow.{
  instance_problems, injection_problems, share_problems, island_problems, slack_problems,
  arc_flow_problems, network_problems, power_flow_problems,
}
use meme.Target.Pypsa.Flow.Held.{injects, setpoints_by_node, agreement_problems, disagreements}
use meme.Target.Pypsa.Flow.Generators.{SuppliedAt, balance_of-Supplied}

given_true : (a b : Bool) → (a && not b) ≡ false → a ≡ true → b ≡ true
given_true a b h t = ground arith

one_of : (a b : Bool) → (not a && not b) ≡ false → a ≡ false → b ≡ true
one_of a b h f = ground arith

module _ (fl : Float64) where
  open fl use {F}

  -- A network that a power flow can solve
  pub record IsSolvable (j : Job F) (carrier slack node : Text) : Type 0 where
    -- It is the only one, and its balancing generator is known.
    pub only : electrical_carriers j.model ≡ carrier ∷ []
    pub named :
        slack_component j.model carrier (slack_or_empty j.experiment.power_flow)
        ≡ balancing slack node
    pub rated :
        (id : Text) (l : Transmission F)
        → lookup id j.model.transmission ≡ some l
        → given l.electrical ≡ true
        → given (rating fl l.electrical l.capacity) ≡ true
    pub levels :
        (n : Text)
        → In n (ac_nodes carrier (bus_grid j.model))
        → no_level fl (lookup n j.model.nodes) ≡ false
    pub dispatched :
        (id : Text) (t : Technology F) (n : Text)
        → lookup id j.model.technologies ≡ some t
        → injects t ≡ true
        → In n t.node
        → str_eq (component_name id t n) slack ≡ false
        → given (tech_at t n).dispatch ≡ true
    -- The set-points of a node equal its first.
    pub held :
        (n name : Text) (v : F) (sps : List (Text × F))
        → lookup n (setpoints_by_node fl carrier slack j.model) ≡ some ((name, v) ∷ sps)
        → All (λ (other, w). fl.eq w v ≡ true) sps
    -- Branches lead from each node to one with an active generator.
    pub supplied :
        (x : Text)
        → In x (ac_nodes carrier (bus_grid j.model))
        → (y : Text) × Joined
            (branches carrier
              (self_parents (ac_nodes carrier (bus_grid j.model)) [])
              j.model.transmission)
            x
            y
          × SuppliedAt j.model carrier y

  slack_named :
      (j : Job F) (carrier : Text) (s : Slack)
      → slack_problems fl j carrier s ≡ []
      → (slack : Text) × (node : Text) × (s ≡ balancing slack node)
  unfolding slack_problems
  slack_named j carrier (unresolved message) h = cc
  slack_named j carrier (balancing slack node) h = (slack, node, refl)

  module _ (j : Job F) (carrier slack node : Text) where
    abbrev nodes : List Text
    nodes = ac_nodes carrier (bus_grid j.model)

    supplied_at :
        slack_problems fl j carrier (balancing slack node) ≡ []
        → (x : Text) → In x nodes
        → (y : Text) × Joined (branches carrier (self_parents nodes []) j.model.transmission) x y
          × SuppliedAt j.model carrier y
    unfolding slack_problems island_problems
    supplied_at h x i =
        let later = append-nil_right (share_problems j node) _ h in
        let held = append-nil_right (each_entry (injection_problems carrier slack) _) _ later in
        let islands =
          append-nil_right (agreement_problems fl (setpoints_by_node fl carrier slack j.model)) _
            held in
        let same = ac_islands-Together_iff j.model carrier nodes in
        let (g, ig, xg, _) = (same x x i i).1 (Joined.here x) in
        let balanced : island_problems fl carrier slack j.model g ≡ [] =
          each-nil_at (island_problems fl carrier slack j.model) (ac_islands j.model carrier nodes)
            g islands ig in
        let (unbalanced, _) = (report-nil_iff (listing g) _).0 balanced in
        let (y, yg, supplier) = balance_of-Supplied fl carrier slack g j.model unbalanced in
        (y, (same x y i (In-of_island j.model carrier nodes g y ig yg)).0 (g, ig, xg, yg), supplier)

    dispatched_at :
        slack_problems fl j carrier (balancing slack node) ≡ []
        → (id : Text) (t : Technology F) (n : Text) → lookup id j.model.technologies ≡ some t
        → injects t ≡ true
        → In n t.node
        → str_eq (component_name id t n) slack ≡ false
        → given (tech_at t n).dispatch ≡ true
    unfolding slack_problems injection_problems instance_problems
    dispatched_at h id t n e a i ne =
        let all : injection_problems carrier slack id t ≡ [] =
          (each_entry-nil_iff (injection_problems carrier slack) j.model.technologies).0
            (append-nil_left _ _ (append-nil_right (share_problems j node) _ h)) id t e in
        let place = codes "tech " ++ component_name id t n in
        let injected : each (instance_problems carrier slack id t) t.node ≡ [] = rw a at all in
        let here : instance_problems carrier slack id t n ≡ [] =
          each-nil_at (instance_problems carrier slack id t) t.node n injected i in
        let (_, (silent, _)) = (report-nil_iff place _).0 here in one_of _ _ silent ne

  agreed :
      (n name : Text) (v : F) (sps : List (Text × F))
      → disagreements fl n ((name, v) ∷ sps) ≡ []
      → All (λ (other, w). fl.eq w v ≡ true) sps
  unfolding disagreements
  agreed n name v sps h =
      All-map sps (λ (other, w) k. true_of_not _ (passed n _ _ [] k)) ((each-nil_iff _ sps).0 h)

  held_at :
      (j : Job F) (carrier slack node : Text)
      → slack_problems fl j carrier (balancing slack node) ≡ []
      → (n name : Text) (v : F) (sps : List (Text × F))
      → lookup n (setpoints_by_node fl carrier slack j.model) ≡ some ((name, v) ∷ sps)
      → All (λ (other, w). fl.eq w v ≡ true) sps
  unfolding slack_problems agreement_problems
  held_at j carrier slack node h n name v sps e =
      let later = append-nil_right (share_problems j node) _ h in
      let rest = append-nil_right (each_entry (injection_problems carrier slack) _) _ later in
      let agree =
        append-nil_left (agreement_problems fl (setpoints_by_node fl carrier slack j.model)) _
          rest in
      agreed n name v sps (
        (each_entry-nil_iff (disagreements fl) (setpoints_by_node fl carrier slack j.model)).0 agree
          n ((name, v) ∷ sps) e)

  -- A power flow without problems: the electrical arcs have one carrier; the slack's name resolves to a
  -- component of it; every electrical arc has a rating, and every bus of the carrier a voltage level; each
  -- active technology that is no load and not the slack has a dispatch wherever it is placed; the voltage
  -- set-points at a node equal its first; and from
  -- every bus of the carrier a chain of branches leads to a node with an active supply technology on it.
  pub power_flow_problems-IsSolvable :
      (j : Job F)
      → power_flow_problems fl j ≡ []
      → (carrier : Text) × (slack : Text) × (node : Text) × IsSolvable j carrier slack node
  unfolding power_flow_problems network_problems level_problems arc_flow_problems
  power_flow_problems-IsSolvable j h =
      let (c, only, checks) = one_network _ _ _ _ h in
      let later = append-nil_right _ _ checks in
      let slack_checks = append-nil_right _ _ later in
      let (slack, node, named) = slack_named j c _ slack_checks in
      let with_slack : slack_problems fl j c (balancing slack node) ≡ [] =
        rw named at slack_checks in
      let arcs = (each_entry-nil_iff _ j.model.transmission).0 (append-nil_left _ _ checks) in
      let levels = append-nil_left _ _ later in
      (
        c,
        slack,
        node,
        record {
          only = only;
          named = named;
          rated = λ id l e g.
              let ok : arc_flow_problems fl c id l ≡ [] = arcs id l e in
              given_true _ _ ((report-nil_iff (codes "transmission " ++ id) _).0 ok).1.0 g;
          levels = λ n i. passed n _ _ _ (each-nil_at (level_problem fl j.model) _ n levels i);
          dispatched = dispatched_at j c slack node with_slack;
          held = held_at j c slack node with_slack;
          supplied = supplied_at j c slack node with_slack;
        },
      )
