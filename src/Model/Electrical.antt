-- ===== src/Model/Electrical.antt =====
-- The electrical parameters of internal/model/electrical.go: their defaults and what they resolve to.
use meme.Base.{
  Bool, false, ◌||◌, Option, none, some, [], if◌then◌else◌, Float64, ℤ, pos, Text, codes, str_eq,
  get_or_else,
}
use meme.Model.Types.{Capacity, TechElectrical, TransmissionElectrical}
use meme.Model.Run.{PowerFlowOptions}
use meme.Model.Checks.{given}

-- What the code uses of package math.
pub record Maths (fl : Float64) : Type 0 where
  pub round : fl.F → fl.F
  pub tan : fl.F → fl.F
  pub acos : fl.F → fl.F
  pub neg : fl.F → fl.F

module _ {F : Type 0} where
  -- `PerLength`
  unfoldable pub per_length : TransmissionElectrical F → Bool
  per_length e = given e.r_per_length || given e.x_per_length

  -- `IsPV`
  unfoldable pub is_pv : Option (TechElectrical F) → Bool
  is_pv none = false
  is_pv (some e) = str_eq e.control (codes "pv")

  -- `Circuits`
  unfoldable pub circuits : Option (TransmissionElectrical F) → ℤ
  circuits none = pos 1
  circuits (some e) = get_or_else e.num_parallel (pos 1)

  -- `SlackOrEmpty`
  unfoldable pub slack_or_empty : Option (PowerFlowOptions F) → Text
  slack_or_empty none = []
  slack_or_empty (some o) = o.slack

  -- `EffectiveMethod`
  unfoldable pub effective_method : Option (PowerFlowOptions F) → Text
  effective_method none = codes "newton_raphson"
  effective_method (some o) = if str_eq o.method [] then codes "newton_raphson" else o.method

module _ (fl : Float64) where
  open fl use {F, zero, one, lt, mul, div, of_int}

  -- `Rating`; `none` is its false
  unfoldable pub capacity_rating : Option (Capacity F) → Option F
  capacity_rating none = none
  capacity_rating (some c) = if lt zero c.existing then some c.existing else none

  unfoldable pub rating_or : Option F → Option (Capacity F) → Option F
  unfolding capacity_rating
  rating_or none c = capacity_rating c
  rating_or (some s) c = if lt zero s then some s else capacity_rating c

  unfoldable pub rating : Option (TransmissionElectrical F) → Option (Capacity F) → Option F
  unfolding rating_or
  rating none c = none
  rating (some e) c = rating_or e.s_nom c

  -- `Tap`
  unfoldable pub tap : Option (TransmissionElectrical F) → F
  tap none = one
  tap (some e) = get_or_else e.tap_ratio one

  -- `EffectiveTolerance`; the default is 1e-6
  abbrev default_tolerance : F
  default_tolerance = div one (of_int (pos 1000000))

  unfoldable pub effective_tolerance : Option (PowerFlowOptions F) → F
  effective_tolerance none = default_tolerance
  effective_tolerance (some o) = get_or_else o.tolerance default_tolerance

module _ (fl : Float64) (maths : Maths fl) where
  open fl use {F, zero, one, mul, div, of_int}
  open maths use {round, tan, acos, neg}

  -- 1e12
  abbrev scale_12 : F
  scale_12 = of_int (pos 1000000000000)

  -- One per-length value over the distance, 0 where it is not given
  unfoldable pub over_distance : F → Option F → F
  over_distance d none = zero
  over_distance d (some v) = div (round (mul (mul v d) scale_12)) scale_12

  -- `Impedance`
  unfoldable pub impedance : TransmissionElectrical F → Option F → F × F
  unfolding over_distance per_length
  impedance e distance =
      let d = get_or_else distance zero in
      if per_length e
      then (over_distance d e.r_per_length, over_distance d e.x_per_length)
      else (e.r, e.x)

  factor_of : Option F → Bool → F
  factor_of none leading = zero
  factor_of (some pf) leading = if leading then neg (tan (acos pf)) else tan (acos pf)

  -- `ReactiveFactor`
  unfoldable pub reactive_factor : Option (TechElectrical F) → F
  unfolding factor_of
  reactive_factor none = zero
  reactive_factor (some e) = factor_of e.power_factor e.leading
