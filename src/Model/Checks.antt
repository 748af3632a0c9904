-- ===== src/Model/Checks.antt =====
-- The numeric range checks of internal/model/validate.go and `Performance.Validate` of
-- internal/model/performance.go. A problem is its place and the message's format, without the numbers
-- that the format prints.
pub mod Ranges
pub mod Curves
use meme.Base.{
  ℕ, suc, Bool, true, false, not, ◌&&◌, ◌||◌, Option, none, some, List, [], ◌∷◌, ◌++◌,
  if◌then◌else◌, ltb, leb, length, ℤ, pos, negsuc, ltb_ℤ, Float64, Text, codes, str_eq, get_or_else,
}
use meme.Model.Types.{Decommission, Capacity, Storage, Breakpoint, Performance}

-- A check that failed: where, and with which message.
abbrev pub Problem : Type 0
Problem = Text × Text

-- `if bad { add(message, where) }`, one after another
unfoldable pub report : Text → List (Bool × Text) → List Problem
report place [] = []
report place ((bad, message) ∷ checks) =
    let rest = report place checks in if bad then (place, message) ∷ rest else rest

-- `p != nil`
abbrev pub given : {A : Type 0} → Option A → Bool
given none = false
given (some x) = true

-- `p != nil && *p < 0` and `p != nil && q != nil && *p > *q` of ints
abbrev pub neg_int : Option ℤ → Bool
neg_int none = false
neg_int (some n) = ltb_ℤ n (pos 0)

abbrev pub int_exceeds : Option ℤ → Option ℤ → Bool
int_exceeds (some a) (some b) = ltb_ℤ b a
int_exceeds _ _ = false

-- The modes that decommissioning has.
abbrev pub known_mode : Text → Bool
known_mode mode =
    str_eq mode []
    || (str_eq mode (codes "impossible")
        || (str_eq mode (codes "continuous") || str_eq mode (codes "only_complete")))

module _ (fl : Float64) where
  open fl use {F, zero, one, lt, le, of_int}

  -- `p != nil && *p < 0`
  abbrev pub negative : Option F → Bool
  negative none = false
  negative (some x) = lt x zero

  -- `p != nil && *p <= 0`
  abbrev pub not_positive : Option F → Bool
  not_positive none = false
  not_positive (some x) = le x zero

  -- `p != nil && *p > 1`
  abbrev pub above_one : Option F → Bool
  above_one none = false
  above_one (some x) = lt one x

  -- `p != nil && q != nil && *p > *q`
  abbrev pub exceeds : Option F → Option F → Bool
  exceeds (some x) (some y) = lt y x
  exceeds _ _ = false

  bad_mode : Option (Decommission F) → Bool
  bad_mode none = false
  bad_mode (some d) = not (known_mode d.mode)

  bad_cost : Option (Decommission F) → Bool
  bad_cost none = false
  bad_cost (some d) = negative d.cost

  -- The checks of `validateCapacity`, in order.
  capacity_checks : Capacity F → List (Bool × Text)
  unfolding bad_mode bad_cost
  capacity_checks c =
      (lt c.existing zero, codes "capacity.existing must not be negative")
      ∷ (negative c.min, codes "capacity.min must not be negative")
      ∷ (negative c.max, codes "capacity.max must not be negative")
      ∷ (exceeds c.min c.max, codes "capacity.min %g exceeds capacity.max %g")
      ∷ (not_positive c.per_unit, codes "capacity.per_unit must be positive")
      ∷ (
        (given c.units_min || given c.units_max) && not (given c.per_unit),
        codes "capacity.units_min/units_max need capacity.per_unit (the module size)",
      )
      ∷ (neg_int c.units_min, codes "capacity.units_min must not be negative")
      ∷ (neg_int c.units_max, codes "capacity.units_max must not be negative")
      ∷ (int_exceeds c.units_min c.units_max, codes "capacity.units_min %d exceeds units_max %d")
      ∷ (negative c.systemwide_min, codes "capacity.systemwide_min must not be negative")
      ∷ (negative c.systemwide_max, codes "capacity.systemwide_max must not be negative")
      ∷ (
        exceeds c.systemwide_min c.systemwide_max,
        codes "capacity.systemwide_min %g exceeds systemwide_max %g",
      )
      ∷ (
        bad_mode c.decommission,
        codes "capacity.decommission.mode %q is invalid (impossible, continuous or only_complete)",
      )
      ∷ (bad_cost c.decommission, codes "capacity.decommission.cost must not be negative")
      ∷ []

  -- `validateCapacity`
  unfoldable pub validate_capacity : Text → Option (Capacity F) → List Problem
  unfolding capacity_checks
  validate_capacity place none = []
  validate_capacity place (some c) = report place (capacity_checks c)

  -- `frac` with the bounds 0 and 1
  abbrev pub outside_unit : Option F → Bool
  outside_unit p = negative p || above_one p

  -- The checks of `validateStorage` before those of its energy capacity, in order.
  storage_checks : Storage F → List (Bool × Text)
  storage_checks s =
      (
        not_positive s.charge_eff || above_one s.charge_eff,
        codes "storage.charge_eff must be within (0,1]",
      )
      ∷ (
        not_positive s.discharge_eff || above_one s.discharge_eff,
        codes "storage.discharge_eff must be within (0,1]",
      )
      ∷ (outside_unit s.self_discharge, codes "storage.self_discharge must be within [%g,%g]")
      ∷ (outside_unit s.initial_soc, codes "storage.initial_soc must be within [%g,%g]")
      ∷ (
        outside_unit s.depth_of_discharge,
        codes "storage.depth_of_discharge must be within [%g,%g]",
      )
      ∷ (not_positive s.max_hours, codes "storage.max_hours must be positive")
      ∷ (negative s.spill_cost, codes "storage.spill_cost must not be negative")
      ∷ (not_positive s.max_charge_rate, codes "storage.max_charge_rate must be positive")
      ∷ (not_positive s.max_discharge_rate, codes "storage.max_discharge_rate must be positive")
      ∷ (
        given s.max_hours && (given s.max_charge_rate || given s.max_discharge_rate),
        codes
            "storage.max_hours (fixed power/energy ratio) cannot be combined with max_charge_rate/max_discharge_rate (independent sizing)",
      )
      ∷ []

  -- `validateStorage`
  unfoldable pub validate_storage : Text → Option (Storage F) → List Problem
  unfolding storage_checks
  validate_storage place none = []
  validate_storage place (some s) =
      report place (storage_checks s)
      ++ validate_capacity (place ++ codes " energy_capacity") s.energy_capacity

  -- A bound, else the number of units by their size
  bound_of : Option F → Option ℤ → Option F → Option F
  bound_of (some x) units per_unit = some x
  bound_of none (some n) (some u) = some (fl.mul (of_int n) u)
  bound_of none _ _ = none

  -- `EffectiveMin`
  unfoldable pub effective_min : Option (Capacity F) → Option F
  unfolding bound_of
  effective_min none = none
  effective_min (some c) = bound_of c.min c.units_min c.per_unit

  -- `EffectiveMax`
  unfoldable pub effective_max : Option (Capacity F) → Option F
  unfolding bound_of
  effective_max none = none
  effective_max (some c) = bound_of c.max c.units_max c.per_unit

  -- The errors of `Performance.Validate`.
  pub data PerfError : Type 0 where
    too_few_breakpoints : PerfError
    load_outside : ℕ → PerfError
    load_not_rising : ℕ → PerfError
    efficiency_not_positive : ℕ → PerfError
    min_load_outside : PerfError
    unknown_physics : Text → PerfError
    unknown_type : Text → PerfError

  -- The loop over the breakpoints: `prev` is the load before, and `i` the index.
  unfoldable pub check_breakpoints : ℕ → F → List (Breakpoint F) → Option PerfError
  check_breakpoints i prev [] = none
  check_breakpoints i prev (b ∷ bs) =
      let rest = check_breakpoints (suc i) b.load bs in
      if lt b.load zero || lt one b.load
      then some (load_outside i)
      else if le b.load prev
      then some (load_not_rising i)
      else if le b.efficiency zero
      then some (efficiency_not_positive i)
      else rest

  min_load_error : Option F → Option PerfError
  min_load_error p = if outside_unit p then some min_load_outside else none

  abbrev first_problem : Option PerfError → Option PerfError → Option PerfError
  first_problem none later = later
  first_problem (some e) later = some e

  -- The piecewise case; `prev` starts at -1.
  piecewise_error : Performance F → Option PerfError
  unfolding check_breakpoints min_load_error
  piecewise_error p =
      let rest =
        first_problem (check_breakpoints 0 (of_int (negsuc 0)) p.breakpoints)
          (min_load_error p.min_load) in
      if ltb (length p.breakpoints) 2 then some too_few_breakpoints else rest

  -- The keys of `physicsModels`
  physics_model : Text → Bool
  physics_model m =
      str_eq m (codes "pv")
      || (str_eq m (codes "wind")
          || (str_eq m (codes "heat_pump") || str_eq m (codes "open_hydro")))

  -- `Kind`
  unfoldable pub perf_kind : Option (Performance F) → Text
  perf_kind none = codes "constant"
  perf_kind (some p) = if str_eq p.kind [] then codes "constant" else p.kind

  -- `Validate`
  unfoldable pub validate_performance : Option (Performance F) → Option PerfError
  unfolding piecewise_error physics_model
  validate_performance none = none
  validate_performance (some p) =
      let kind = perf_kind (some p) in
      if str_eq kind (codes "constant")
      then none
      else if str_eq kind (codes "piecewise")
      then piecewise_error p
      else if str_eq kind (codes "physics")
      then (if physics_model p.model then none else some (unknown_physics p.model))
      else some (unknown_type p.kind)
