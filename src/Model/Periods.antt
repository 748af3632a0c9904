-- ===== src/Model/Periods.antt =====
-- Investment periods (internal/model/periods.go).
pub mod Spans
use meme.Base.{
  ℕ, Bool, true, false, Option, none, some, List, [], ◌∷◌, ℤ, ◌-ℤ◌, Float64, Text, get_or_else,
  if◌then◌else◌,
}
use meme.Model.Types.{Period, Model}

pub record InvestmentPeriod (F : Type 0) : Type 0 where
  pub name : Text
  pub year : ℤ
  pub years : F
  pub objective : F

module _ {F : Type 0} where
  -- The loop that looks for a period without a year.
  unfoldable pub all_have_year : List (Period F) → Bool
  all_have_year [] = true
  all_have_year (p ∷ ps) = elim p.year [ none ↦ false | some y ↦ all_have_year ps ]

module _ (fl : Float64) where
  open fl use {F, one, of_int}

  -- `out[i-1].Years` where there is a period before, else 1
  abbrev pub span_before : Option F → F
  span_before previous = get_or_else previous one

  -- The span of a period without length_years, by the year of the next one.
  unfoldable pub span_to : ℤ → Option F → List (Period F) → F
  span_to year previous [] = span_before previous
  span_to year previous (next ∷ ps) = elim next.year [
    | none ↦ span_before previous
    | some y ↦ of_int (y -ℤ year)
  ]

  -- `switch` of the loop
  unfoldable pub years_of : Option F → ℤ → Option F → List (Period F) → F
  unfolding span_to
  years_of (some l) year previous ps = l
  years_of none year previous ps = span_to year previous ps

  -- The loop over the periods; `previous` is the span of the period before. A period without a year,
  -- whose pointer the source would follow, does not come here.
  unfoldable pub build_periods : Option F → List (Period F) → List (InvestmentPeriod F)
  unfolding years_of
  build_periods previous [] = []
  build_periods previous (p ∷ ps) = elim p.year [
    | none ↦ []
    | some year ↦
        let years = years_of p.length_years year previous ps in
        record {
          name = p.name;
          year = year;
          years = years;
          objective = get_or_else p.objective_weight one;
        }
        ∷ build_periods (some years) ps
  ]

  pub periods_or_none : List (Period F) → Option (List (InvestmentPeriod F))
  unfolding build_periods all_have_year
  periods_or_none [] = none
  periods_or_none (p ∷ ps) =
      if all_have_year (p ∷ ps) then some (build_periods none (p ∷ ps)) else none

  -- `InvestmentPeriods`; `none` is nil
  unfoldable pub investment_periods : Model F → Option (List (InvestmentPeriod F))
  unfolding periods_or_none
  investment_periods m = periods_or_none m.periods
