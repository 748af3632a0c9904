-- ===== src/Model/Validate/Times.antt =====
-- The checks of the name, the time horizon and the periods in Model.Validate.
pub mod Positive
use meme.Base.{
  ℕ, zero, suc, Bool, true, false, not, ◌&&◌, ◌||◌, Option, none, some, List, [], ◌∷◌, ◌++◌,
  Float64, ℤ, leb_ℤ, Text, codes, str_eq, is_some, Map, has_key,
}
use meme.Model.Types.{Value, TimeConfig, Period, TimeSeries, Model}
use meme.Model.Values.{reduce, is_series, series_id}
use meme.Model.Dates.{Dates, parse_date, parseable_date}
use meme.Model.Checks.{Problem, report, given, negative, not_positive}
use meme.Model.Validate.Each.{seen_in}

-- `len(m) == 0`
abbrev pub no_entry : {V : Type 0} → Map V → Bool
no_entry [] = true
no_entry (entry ∷ m) = false

-- The message about a required timestamp
abbrev horizon_checks : (Text → Bool) → Text → List (Bool × Text)
horizon_checks parseable s =
    (str_eq s [], codes "is required")
    ∷ (not (str_eq s []) && not (parseable s), codes "%q is not an ISO 8601 timestamp")
    ∷ []

-- The loop over the explicit time steps; `seen` are those before.
unfoldable pub timestep_problems : List Text → List Text → List Problem
timestep_problems seen [] = []
timestep_problems seen (step ∷ steps) =
    report (codes "time.timesteps")
      ((seen_in step seen, codes "time.timesteps[%d] duplicates timesteps[%d] (%q)") ∷ [])
    ++ timestep_problems (step ∷ seen) steps

module _ {F : Type 0} where
  -- `hasSeries`; of no value it is not asked
  unfoldable pub has_series : Map (TimeSeries F) → Option (Value F) → Bool
  has_series series none = true
  has_series series (some v) = not (is_series (some v)) || has_key (series_id v) series

  -- `withYear > 0`
  unfoldable pub any_year : List (Period F) → Bool
  any_year [] = false
  any_year (p ∷ ps) = is_some p.year || any_year ps

-- `i > 0 && p.Year != nil && m.Periods[i-1].Year != nil && *p.Year <= *m.Periods[i-1].Year`
unfoldable pub year_falls : Option ℤ → Option ℤ → Bool
year_falls (some y) (some x) = leb_ℤ y x
year_falls _ _ = false

module _ (fl : Float64) where
  open fl use {F, zero}

  -- The checks of one period; `previous` is the year of the one before.
  period_checks : Bool → Option ℤ → Period F → List (Bool × Text)
  unfolding year_falls
  period_checks planned previous p =
      (str_eq p.name [], codes "periods[%d] has no name")
      ∷ (not_positive fl p.length_years, codes "length_years must be positive")
      ∷ (negative fl p.objective_weight, codes "objective_weight must not be negative")
      ∷ (planned && not (is_some p.year), codes "every period needs a year once any period has one")
      ∷ (year_falls p.year previous, codes "periods must be in ascending year order (%d after %d)")
      ∷ []

  -- The loop over the periods
  unfoldable pub period_problems : Bool → Option ℤ → List (Period F) → List Problem
  unfolding period_checks
  period_problems planned previous [] = []
  period_problems planned previous (p ∷ ps) =
      report (codes "periods") (period_checks planned previous p)
      ++ period_problems planned p.year ps

  -- `f, ok := m.Time.Weights.Reduce(); ok && f <= 0`
  unfoldable pub weights_not_positive : Option (Value F) → Bool
  weights_not_positive v = not_positive fl (reduce v)

module _ (fl : Float64) (dates : Dates) where
  open fl use {F}
  open dates use {Time, after}

  -- The end is not after the start, of two that parse.
  unfoldable pub ends_early : Option Time → Option Time → Bool
  ends_early (some start) (some end) = not (after end start)
  ends_early _ _ = false

  -- From the name to the discount rate
  unfoldable pub time_problems : Model F → List Problem
  unfolding ends_early weights_not_positive
  time_problems m =
      report (codes "metadata")
        ((str_eq m.metadata.name [], codes "metadata.name is required") ∷ [])
      ++ (report (codes "time.start") (horizon_checks (parseable_date dates) m.time.start)
          ++ (report (codes "time.end") (horizon_checks (parseable_date dates) m.time.end)
              ++ (report (codes "time") (
                    (
                      ends_early (parse_date dates m.time.start) (parse_date dates m.time.end),
                      codes "time.end %q must be after time.start %q",
                    )
                    ∷ [])
                  ++ (timestep_problems [] m.time.timesteps
                      ++ report (codes "model") (
                          (
                            weights_not_positive fl m.time.weights,
                            codes "time.weights must be positive",
                          )
                          ∷ (
                            negative fl m.discount_rate,
                            codes "discount_rate must not be negative",
                          )
                          ∷ [])))))

  -- The periods, and that there are nodes and carriers
  unfoldable pub horizon_problems : Model F → List Problem
  horizon_problems m =
      period_problems fl (any_year m.periods) none m.periods
      ++ report (codes "model") (
          (no_entry m.nodes, codes "model has no nodes")
          ∷ (no_entry m.carriers, codes "model has no carriers")
          ∷ [])
