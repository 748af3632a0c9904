-- ===== src/Target/Pypsa/Checks/Dropped.antt =====
-- The warnings of `ValidateJob` (internal/target/pypsa/pypsa.go) about fields that the emitter drops.
use meme.Base.{
  Bool, false, not, ◌&&◌, Option, none, some, List, [], ◌∷◌, ◌++◌, if◌then◌else◌, Text, codes,
  str_eq, lookup,
}
use meme.Model.Types.{Capacity, Decommission, Storage, CostClass, Technology, TradeSide, Trade}
use meme.Model.Checks.{Problem, report, given}
use meme.Target.Gates.Uses.{expandable_cap}
use meme.Target.Gates.Warnings.{primary_cost_class}
use meme.Target.Pypsa.Planning.{decommission_mode}
use meme.Target.Pypsa.Checks.Fields.{tech_place, is_store, energy_expandable}

module _ {F : Type 0} where
  retirement_cost : Option (Decommission F) → Bool
  retirement_cost none = false
  retirement_cost (some d) = given d.cost

  priced_retirement : Option (Capacity F) → Bool
  unfolding retirement_cost
  priced_retirement none = false
  priced_retirement (some c) = retirement_cost c.decommission

  unfoldable pub field_warnings : Text → Technology F → List Problem
  unfolding priced_retirement
  field_warnings id t = report (tech_place id) (
      (
        str_eq (decommission_mode t.capacity) (codes "continuous") && priced_retirement t.capacity,
        codes
            "decommission.cost is not priced on pypsa (retirement is driven by the fixed O&M the retired capacity saves)",
      )
      ∷ [])

  initial_soc : Option (Storage F) → Bool
  initial_soc none = false
  initial_soc (some s) = given s.initial_soc

  energy_investment : Option (CostClass F) → Bool
  energy_investment none = false
  energy_investment (some c) = given c.investment_per_energy_capacity

  -- The warnings about a technology's dropped fields
  unfoldable pub dropped_warnings : Text → Technology F → List Problem
  unfolding initial_soc energy_investment
  dropped_warnings id t = report (tech_place id) (
      (
        initial_soc t.storage
            && (if is_store t.storage
                then energy_expandable t.storage
                else expandable_cap t.capacity),
        codes
            "storage.initial_soc is a fraction of the installed energy, which an expandable storage decides; pypsa starts it from the existing capacity (%g MWh of a Store is not set at all)",
      )
      ∷ (
        energy_investment (lookup primary_cost_class t.costs) && not (is_store t.storage),
        codes
            "investment_per_energy_capacity is priced on pypsa only with storage.energy_capacity (a Store's capital_cost per MWh); a max_hours StorageUnit has no per-MWh slot, so it is dropped here (calliope: cost_storage_cap)",
      )
      ∷ [])

  side_emits : Option (TradeSide F) → Bool
  side_emits none = false
  side_emits (some s) = given s.emission_factor

  -- The warnings about a trade's emissions
  unfoldable pub trade_warnings : Text → Trade F → List Problem
  unfolding side_emits
  trade_warnings id tr = report (codes "trade " ++ id) (
      (
        side_emits tr.import_side,
        codes
            "import emission_factor is not emitted for pypsa (set the carrier's co2_intensity instead); calliope/adopt-net0 honor it",
      )
      ∷ (
        side_emits tr.export_side,
        codes
            "export emission_factor is not emitted for pypsa (set the carrier's co2_intensity instead); calliope/adopt-net0 honor it",
      )
      ∷ [])
