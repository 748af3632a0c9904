-- ===== src/Model/Validate/Parts.antt =====
-- What a model without problems consists of: the loops of Model.Validate, one by one.
use meme.Base.{◌≡◌, some, [], Float64, Text, lookup}
use meme.Model.Types.{Technology, Node, Trade, Transmission, Model}
use meme.Model.Dates.{Dates}
use meme.Model.Validate.{validate_model}
use meme.Model.Validate.Each.{each_entry, append-nil_left, append-nil_right, each_entry-nil_iff}
use meme.Model.Validate.Times.{time_problems, horizon_problems}
use meme.Model.Validate.Techs.{tech_problems}
use meme.Model.Validate.Registry.{naming_problems, node_problems}
use meme.Model.Validate.Limits.{each_constraint, constraint_names, each_limit, trade_problems}
use meme.Model.Validate.Arcs.{arc_problems}

module _ (fl : Float64) (dates : Dates) where
  open fl use {F}

  pub record IsSound (m : Model F) : Type 0 where
    pub times : time_problems fl dates m ≡ []
    pub horizon : horizon_problems fl dates m ≡ []
    pub naming : naming_problems m ≡ []
    pub techs :
        (id : Text) (t : Technology F)
        → lookup id m.technologies ≡ some t
        → tech_problems fl m id t ≡ []
    pub nodes : (id : Text) (n : Node F) → lookup id m.nodes ≡ some n → node_problems fl m id n ≡ []
    pub constraints : each_constraint m [] 0 m.constraints ≡ []
    pub trade :
        (id : Text) (tr : Trade F) → lookup id m.trade ≡ some tr → trade_problems fl m id tr ≡ []
    pub limits : each_limit (constraint_names [] m.constraints) 0 m.emission_limits ≡ []
    pub arcs :
        (id : Text) (l : Transmission F)
        → lookup id m.transmission ≡ some l
        → arc_problems fl m id l ≡ []

  pub validate_model-IsSound : (m : Model F) → validate_model fl dates m ≡ [] → IsSound m
  unfolding validate_model
  validate_model-IsSound m h =
      let a1 = append-nil_right (time_problems fl dates m) _ h in
      let a2 = append-nil_right (horizon_problems fl dates m) _ a1 in
      let a3 = append-nil_right (naming_problems m) _ a2 in
      let a4 = append-nil_right (each_entry (tech_problems fl m) m.technologies) _ a3 in
      let a5 = append-nil_right (each_entry (node_problems fl m) m.nodes) _ a4 in
      let a6 = append-nil_right (each_constraint m [] 0 m.constraints) _ a5 in
      let a7 = append-nil_right (each_entry (trade_problems fl m) m.trade) _ a6 in
      record {
        times = append-nil_left _ _ h;
        horizon = append-nil_left _ _ a1;
        naming = append-nil_left _ _ a2;
        techs = (each_entry-nil_iff (tech_problems fl m) m.technologies).0 (append-nil_left _ _ a3);
        nodes = (each_entry-nil_iff (node_problems fl m) m.nodes).0 (append-nil_left _ _ a4);
        constraints = append-nil_left _ _ a5;
        trade = (each_entry-nil_iff (trade_problems fl m) m.trade).0 (append-nil_left _ _ a6);
        limits = append-nil_left _ _ a7;
        arcs = (each_entry-nil_iff (arc_problems fl m) m.transmission).0 (append-nil_right _ _ a7);
      }
