-- ===== src/Target/Pypsa/Checks/Fields.antt =====
-- The checks of `ValidateJob` (internal/target/pypsa/pypsa.go) on the fields of a technology, of its
-- storage and of an arc, which the encoding as PyPSA components cannot carry.
use meme.Base.{
  Bool, false, not, ◌&&◌, ◌||◌, Option, none, some, List, [], ◌∷◌, ◌++◌, if◌then◌else◌, Text, codes,
  str_eq, lookup,
}
use meme.Model.Types.{Capacity, Operation, Storage, CostClass, Technology, Transmission}
use meme.Model.Enums.{supply}
use meme.Model.Values.{is_series}
use meme.Model.Checks.{Problem, report, given}
use meme.Target.Gates.Uses.{expandable_cap}
use meme.Target.Gates.Warnings.{primary_cost_class}
use meme.Target.Pypsa.Planning.{decommission_mode}

abbrev pub tech_place : Text → Text
tech_place id = codes "tech " ++ id

abbrev pub arc_place : Text → Text
arc_place id = codes "transmission " ++ id

abbrev pub operate : Text
operate = codes "operate"

abbrev pub stochastic : Text
stochastic = codes "stochastic"

module _ {F : Type 0} where
  -- `IsStore`
  unfoldable pub is_store : Option (Storage F) → Bool
  is_store none = false
  is_store (some s) = given s.energy_capacity

  -- `s.EnergyCapacity.Expandable` of a Store
  abbrev pub energy_expandable : Option (Storage F) → Bool
  energy_expandable none = false
  energy_expandable (some s) = expandable_cap s.energy_capacity

  -- The technology has a decommissioning mode that no component can have.
  abbrev pub odd_mode : Option (Capacity F) → Bool
  odd_mode c =
      not (str_eq (decommission_mode c) (codes "impossible"))
      && not (str_eq (decommission_mode c) (codes "continuous"))

  abbrev pub operation_checks : Option (Operation F) → List (Bool × Text)
  operation_checks none = []
  operation_checks (some op) =
      (given op.max_startups, codes "operation.max_startups is only supported for adopt-net0")
      ∷ (given op.standby_power, codes "operation.standby_power is only supported for adopt-net0")
      ∷ []

  abbrev pub fuel_series : Option (CostClass F) → Bool
  fuel_series none = false
  fuel_series (some c) = is_series c.fuel_cost

  abbrev pub base_checks : Technology F → List (Bool × Text)
  base_checks t =
      (
        given t.emission_factor,
        codes
            "emission_factor is not supported for pypsa (set the fuel carrier's co2_intensity instead; emission accounting is carrier-wide)",
      )
      ∷ (
        t.demand_curtailable,
        codes "demand_curtailable is only supported for target calliope (sink_use_max)",
      )
      ∷ (
        (given t.annual_output_min || given t.annual_output_max) && not (str_eq t.role supply),
        codes
            "annual_output_min/max map onto generator e_sum_min/e_sum_max and need role \"supply\"",
      )
      ∷ (
        str_eq (decommission_mode t.capacity) (codes "continuous") && is_store t.storage,
        codes
            "continuous retirement of a Store-based storage is not supported for pypsa (it would split three components); keep decommission impossible or size the storage with max_hours",
      )
      ∷ (
        odd_mode t.capacity,
        codes
            "capacity.decommission mode %q is not supported for pypsa (existing capacity stays fixed); adopt-net0 honors it",
      )
      ∷ []

  abbrev pub fuel_checks : Technology F → List (Bool × Text)
  fuel_checks t =
      (
        fuel_series (lookup primary_cost_class t.costs),
        codes
            "a time-series fuel_cost is not supported (it folds into marginal_cost as a scalar); use a series variable_om instead",
      )
      ∷ []

  -- The checks of a technology's fields
  unfoldable pub field_problems : Text → Technology F → List Problem
  field_problems id t =
      report (tech_place id) (base_checks t)
      ++ (report (tech_place id) (operation_checks t.operation)
          ++ report (tech_place id) (fuel_checks t))

  abbrev pub systemwide : Option (Capacity F) → Bool
  systemwide none = false
  systemwide (some c) = given c.systemwide_min || given c.systemwide_max

  -- The check of systemwide bounds in a mode
  unfoldable pub systemwide_problems : Text → Text → Technology F → List Problem
  systemwide_problems mode id t = report (tech_place id) (
      (
        (str_eq mode operate || str_eq mode stochastic) && systemwide t.capacity,
        codes
            "capacity.systemwide bounds are not applicable in mode %q on pypsa (sidecar constraints are unavailable)",
      )
      ∷ [])

  -- The checks of an energy-sized storage, a Store
  abbrev pub store_checks : Text → Technology F → Storage F → List (Bool × Text)
  store_checks mode t s =
      (
        given s.inflow,
        codes
            "storage.inflow has no slot on a Store; drop storage.energy_capacity to keep the StorageUnit representation (max_hours) or the inflow",
      )
      ∷ (
        given s.soc_profile,
        codes
            "storage.soc_profile has no slot on a Store (PyPSA pins the state of charge of a StorageUnit only); drop storage.energy_capacity or the profile",
      )
      ∷ (
        str_eq mode stochastic
            && (given s.max_charge_rate
                || (given s.max_discharge_rate || expandable_cap t.capacity)),
        codes
            "the Store representation needs the sidecar constraints (equal charger/discharger power, rate bounds), which mode %q cannot apply",
      )
      ∷ []

  -- The checks of a storage that is sized by its hours, a StorageUnit
  abbrev pub unit_checks : Storage F → List (Bool × Text)
  unit_checks s =
      (
        given s.max_charge_rate || given s.max_discharge_rate,
        codes
            "storage.max_charge_rate/max_discharge_rate need storage.energy_capacity on pypsa (the Store representation sizes energy and power independently); a StorageUnit's p_nom bounds both directions",
      )
      ∷ (
        given s.depth_of_discharge,
        codes
            "storage.depth_of_discharge needs storage.energy_capacity on pypsa (a Store's e_min_pu); a StorageUnit has no minimum state of charge",
      )
      ∷ []

  abbrev pub sized_checks : Text → Technology F → Storage F → List (Bool × Text)
  sized_checks mode t s = if given s.energy_capacity then store_checks mode t s else unit_checks s

  abbrev pub exclusion_checks : Storage F → List (Bool × Text)
  exclusion_checks s =
      (
        s.no_simultaneous_charge_discharge,
        codes
            "storage.no_simultaneous_charge_discharge is not representable for pypsa (StorageUnit dispatch is a single signed variable)",
      )
      ∷ []

  stored : Text → Text → Technology F → Option (Storage F) → List Problem
  stored mode id t none = []
  stored mode id t (some s) =
      report (tech_place id) (sized_checks mode t s) ++ report (tech_place id) (exclusion_checks s)

  -- The checks of a technology's storage
  unfoldable pub storage_problems : Text → Text → Technology F → List Problem
  unfolding stored
  storage_problems mode id t = stored mode id t t.storage

  -- The checks of an arc
  unfoldable pub arc_field_problems : Text → Transmission F → List Problem
  arc_field_problems id l = report (arc_place id) (
      (
        given l.loss_per_distance && not (given l.distance),
        codes "loss_per_distance needs distance to fold into the pypsa link efficiency",
      )
      ∷ (
        given l.min_flow && l.bidirectional,
        codes
            "min_flow on a bidirectional link is not representable for pypsa (p_min_pu already carries the reverse direction)",
      )
      ∷ (
        given l.energy_consumption && l.bidirectional,
        codes
            "energy_consumption on a bidirectional link is not representable for pypsa (reversed flow would inject the auxiliary carrier)",
      )
      ∷ (
        given l.emission_factor,
        codes
            "emission_factor is only supported for calliope (co2 cost class); pypsa emission accounting is carrier-wide",
      )
      ∷ (
        not (str_eq (decommission_mode l.capacity) (codes "impossible")),
        codes
            "capacity.decommission mode %q is not supported for pypsa (an arc's existing capacity stays fixed)",
      )
      ∷ [])
