-- ===== src/Model/Types.antt =====
-- The canonical model of internal/model/model.go and types.go. `F` is float64. A pointer is an
-- `Option`; a slice or map whose nil is told apart from the empty one is an `Option` too. The string
-- enums stay strings, since a payload may spell anything: their `Valid` methods test them.
mod Parts
pub use Parts.*
use meme.Base.{Bool, Option, List, ℤ, Text, Map}

module _ (F : Type 0) where
  pub record NodeOverride : Type 0 where
    pub carrier_in : Option (List Text)
    pub carrier_out : Option (List Text)
    pub efficiency : Option (Value F)
    pub performance : Option (Performance F)
    pub capacity : Option (Capacity F)
    pub operation : Option (Operation F)
    pub storage : Option (Storage F)
    pub demand_profile : Option (Value F)
    pub dispatch : Option (Value F)
    pub electrical : Option (TechElectrical F)
    pub area : Option (AreaSpec F)
    pub source : Option (SourceSpec F)
    pub costs : Map (CostClass F)
    pub native : Option (Native F)

  pub record Technology : Type 0 where
    pub role : Text
    pub node : List Text
    pub carrier_in : List Text
    pub carrier_out : List Text
    pub efficiency : Option (Value F)
    pub flows : List (Flow F)
    pub performance : Option (Performance F)
    pub capacity : Option (Capacity F)
    pub operation : Option (Operation F)
    pub storage : Option (Storage F)
    pub demand_profile : Option (Value F)
    pub area : Option (AreaSpec F)
    pub source : Option (SourceSpec F)
    pub costs : Map (CostClass F)
    pub lifetime : Option F
    pub interest_rate : Option F
    pub cost_basis : Text
    pub emission_factor : Option F
    pub annual_output_min : Option F
    pub annual_output_max : Option F
    pub build_year : Option ℤ
    pub active : Option Bool
    pub demand_curtailable : Bool
    pub dispatch : Option (Value F)
    pub electrical : Option (TechElectrical F)
    pub node_overrides : Map NodeOverride
    pub native : Option (Native F)

  -- TransmissionElectrical of electrical.go
  pub record TransmissionElectrical : Type 0 where
    pub kind : Text
    pub r : F
    pub x : F
    pub r_per_length : Option F
    pub x_per_length : Option F
    pub s_nom : Option F
    pub num_parallel : Option ℤ
    pub b : Option F
    pub g : Option F
    pub tap_ratio : Option F
    pub phase_shift : Option F
    pub max_loading : Option F

  pub record TransportEnergy : Type 0 where
    pub carrier : Text
    pub per_flow : F
    pub per_flow_distance : F

  pub record Transmission : Type 0 where
    pub carrier : Text
    pub from : Text
    pub to : Text
    pub bidirectional : Bool
    pub capacity : Option (Capacity F)
    pub efficiency : Option (Value F)
    pub distance : Option F
    pub loss_per_distance : Option F
    pub min_flow : Option F
    pub emission_factor : Option F
    pub energy_consumption : Option TransportEnergy
    pub costs : Map (CostClass F)
    pub electrical : Option TransmissionElectrical
    pub dispatch : Option (Value F)
    pub lifetime : Option F
    pub interest_rate : Option F
    pub cost_basis : Text
    pub active : Option Bool
    pub native : Option (Native F)

  pub record TradeSide : Type 0 where
    pub limit : Option (Value F)
    pub price : Option (Value F)
    pub emission_factor : Option F

  pub record Trade : Type 0 where
    pub node : Text
    pub carrier : Text
    pub import_side : Option TradeSide
    pub export_side : Option TradeSide
    pub native : Option (Native F)

  pub record EmissionLimit : Type 0 where
    pub name : Text
    pub carrier : Text
    pub sense : Text
    pub limit : F
    pub period : Text

  -- Term and Constraint of constraint.go
  pub record Term : Type 0 where
    pub coefficient : F
    pub variable : Text
    pub techs : List Text
    pub carriers : List Text
    pub nodes : List Text

  pub record Constraint : Type 0 where
    pub name : Text
    pub terms : List Term
    pub sense : Text
    pub bound : F
    pub period : Text

  pub record Model : Type 0 where
    pub metadata : Metadata F
    pub time : TimeConfig F
    pub periods : List (Period F)
    pub discount_rate : Option F
    pub carriers : Map (Carrier F)
    pub nodes : Map (Node F)
    pub timeseries : Map (TimeSeries F)
    pub technologies : Map Technology
    pub transmission : Map Transmission
    pub trade : Map Trade
    pub emission_limits : List EmissionLimit
    pub constraints : List Constraint
    pub native : Option (Native F)
