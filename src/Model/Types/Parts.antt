-- ===== src/Model/Types/Parts.antt =====
-- The parts of technologies, nodes and carriers (internal/model/model.go, types.go, electrical.go).
use meme.Base.{Bool, Option, List, ℤ, Text, Map}

module _ (F : Type 0) where
  pub record IndexedParam : Type 0 where
    pub values : List F
    pub index : List (List Text)
    pub dims : List Text

  -- `ref` is empty and `inline` is `[]` where the value has another shape.
  pub record Value : Type 0 where
    pub scalar : Option F
    pub ref : Text
    pub inline : List F
    pub indexed : Option IndexedParam

  -- The raw JSON of each target's block; an absent block is empty.
  pub record Native : Type 0 where
    pub pypsa : Text
    pub calliope : Text
    pub calliope06 : Text
    pub adopt : Text

  pub record Metadata : Type 0 where
    pub name : Text
    pub version : Text
    pub description : Text
    pub currency : Text
    pub currency_year : ℤ

  pub record TimeConfig : Type 0 where
    pub start : Text
    pub end : Text
    pub resolution : Text
    pub subset : List Text
    pub timesteps : List Text
    pub weights : Option Value

  pub record Period : Type 0 where
    pub name : Text
    pub year : Option ℤ
    pub length_years : Option F
    pub objective_weight : Option F

  pub record Carrier : Type 0 where
    pub name : Text
    pub unit : Text
    pub co2_intensity : Option F
    pub color : Text
    pub native : Option Native

  pub record Coords : Type 0 where
    pub lat : F
    pub lon : F
    pub alt : F

  pub record Shunt : Type 0 where
    pub g : F
    pub b : F

  pub record NodeElectrical : Type 0 where
    pub v_nom : F
    pub shunt : Option Shunt

  pub record Node : Type 0 where
    pub name : Text
    pub coords : Option Coords
    pub allowed_techs : List Text
    pub available_area : Option F
    pub climate : Map Value
    pub electrical : Option NodeElectrical
    pub native : Option Native

  pub record TimeSeries : Type 0 where
    pub source : Text
    pub path : Text
    pub column : Text
    pub values : List F
    pub unit : Text

  pub record Flow : Type 0 where
    pub carrier : Text
    pub direction : Text
    pub ratio : F
    pub reference : Bool

  pub record Decommission : Type 0 where
    pub mode : Text
    pub cost : Option F

  pub record Capacity : Type 0 where
    pub existing : F
    pub expandable : Bool
    pub min : Option F
    pub max : Option F
    pub unit : Text
    pub per_unit : Option F
    pub units_min : Option ℤ
    pub units_max : Option ℤ
    pub systemwide_min : Option F
    pub systemwide_max : Option F
    pub decommission : Option Decommission

  pub record Operation : Type 0 where
    pub max_pu : Option Value
    pub min_pu : Option Value
    pub equals_pu : Option Value
    pub ramp_up : Option Value
    pub ramp_down : Option Value
    pub committable : Bool
    pub start_up_cost : Option F
    pub shut_down_cost : Option F
    pub min_uptime : Option F
    pub min_downtime : Option F
    pub max_startups : Option F
    pub standby_power : Option F
    pub ramp_start_up : Option F
    pub ramp_shut_down : Option F
    pub standby_cost : Option F
    pub initial_uptime : Option F
    pub initial_downtime : Option F

  pub record Storage : Type 0 where
    pub energy_capacity : Option Capacity
    pub max_hours : Option F
    pub charge_eff : Option F
    pub discharge_eff : Option F
    pub self_discharge : Option F
    pub inflow : Option Value
    pub spill_cost : Option F
    pub initial_soc : Option F
    pub cyclic : Bool
    pub max_charge_rate : Option F
    pub max_discharge_rate : Option F
    pub depth_of_discharge : Option F
    pub no_simultaneous_charge_discharge : Bool
    pub soc_profile : Option Value

  pub record AreaSpec : Type 0 where
    pub max : Option F
    pub per_capacity : Option F

  pub record SourceSpec : Type 0 where
    pub cap : Option F
    pub unit : Text
    pub max : Option Value

  pub record CostClass : Type 0 where
    pub investment_per_capacity : Option F
    pub investment_per_energy_capacity : Option F
    pub investment_per_capacity_distance : Option F
    pub fixed_om : Option F
    pub fixed_om_fraction : Option F
    pub variable_om : Option Value
    pub variable_om_quadratic : Option F
    pub fuel_cost : Option Value
    pub purchase : Option F

  pub record Breakpoint : Type 0 where
    pub load : F
    pub efficiency : F

  -- The free-form `params` of a physics model are left out: no code of the model package reads them.
  pub record Performance : Type 0 where
    pub kind : Text
    pub efficiency : Option Value
    pub breakpoints : List Breakpoint
    pub min_load : Option F
    pub model : Text
    pub precomputed : Option Value

  -- TechElectrical of electrical.go
  pub record TechElectrical : Type 0 where
    pub reactive_dispatch : Option Value
    pub power_factor : Option F
    pub leading : Bool
    pub control : Text
    pub voltage_setpoint : Option F
