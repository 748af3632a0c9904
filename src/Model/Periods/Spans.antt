-- ===== src/Model/Periods/Spans.antt =====
-- The spans of investment periods.
use meme.Base.{
  ◌≡◌, refl, ap, ◌↔◌, ◌⊎◌, inl, inr, Bool, true, false, Option, none, some, List, [], ◌∷◌, map,
  arith, ◌-ℤ◌, Float64, Option-cases, if◌then◌else◌,
}
use meme.Model.Types.{Period, Model}
use meme.Model.Periods.{
  InvestmentPeriod, all_have_year, years_of, build_periods, periods_or_none, investment_periods,
}

module _ (fl : Float64) where
  open fl use {F, one, of_int}

  no_year :
      (p : Period F) (ps : List (Period F)) → p.year ≡ none → all_have_year (p ∷ ps) ≡ true → ⊥
  unfolding all_have_year
  no_year p ps e h = cc (rw e at h)

  -- The names and the years of the periods, in order, taken over unchanged.
  build_periods-keeps :
      (previous : Option F) (ps : List (Period F))
      → all_have_year ps ≡ true
      → (map (λ p. p.name) (build_periods fl previous ps) ≡ map (λ p. p.name) ps)
        × (map (λ p. some p.year) (build_periods fl previous ps) ≡ map (λ p. p.year) ps)
  unfolding build_periods all_have_year
  build_periods-keeps previous [] h = (refl, refl)
  build_periods-keeps previous (p ∷ ps) h = elim (Option-cases p.year) [
    | inl none_there ↦ elim (no_year p ps none_there h) [ ]
    | inr (y, e) ↦
        let years = years_of fl p.length_years y previous ps in
        let (names, ys) = build_periods-keeps (some years) ps (rw e at h) in
        rw e (ap (λ ns. p.name ∷ ns) names, ap (λ l. some y ∷ l) ys)
  ]

  -- Consecutive periods, the span of each reaching to the year of the next.
  abbrev pub Tiles : List (InvestmentPeriod F) → Type 0
  Tiles [] = Unit
  Tiles (a ∷ []) = Unit
  Tiles (a ∷ b ∷ ps) = (a.years ≡ of_int (b.year -ℤ a.year)) × Tiles (b ∷ ps)

  if_none :
      (b : Bool) (xs : List (InvestmentPeriod F))
      → ((if b then some xs else none) ≡ none) ↔ (b ≡ false)
  if_none b xs = ground arith

  periods_or_none_iff :
      (ps : List (Period F))
      → (periods_or_none fl ps ≡ none) ↔ ((ps ≡ []) ⊎ (all_have_year ps ≡ false))
  unfolding periods_or_none
  periods_or_none_iff [] = (λ h. inl refl, λ h. refl)
  periods_or_none_iff (p ∷ ps) =
      let (there, back) = if_none (all_have_year (p ∷ ps)) (build_periods fl none (p ∷ ps)) in
      (λ h. inr (there h), λ h. elim h [ inl e ↦ cc | inr f ↦ back f ])

  -- What a model's investment periods are built from.
  pub periods_or_none-some :
      (ps : List (Period F)) (out : List (InvestmentPeriod F))
      → periods_or_none fl ps ≡ some out
      → (all_have_year ps ≡ true) × (build_periods fl none ps ≡ out)
  unfolding periods_or_none
  periods_or_none-some [] out h = cc
  periods_or_none-some (p ∷ ps) out h = ground arith

  -- Investment periods exist exactly if there are periods and each has a year; then they have the
  -- names and the years of the periods, in order.
  pub investment_periods_lem :
      (m : Model F)
      → ((investment_periods fl m ≡ none) ↔ ((m.periods ≡ []) ⊎ (all_have_year m.periods ≡ false)))
        × ((out : List (InvestmentPeriod F))
            → investment_periods fl m ≡ some out
            → (map (λ p. p.name) out ≡ map (λ p. p.name) m.periods)
              × (map (λ p. some p.year) out ≡ map (λ p. p.year) m.periods))
  unfolding investment_periods
  investment_periods_lem m = (
    periods_or_none_iff m.periods,
    λ out h.
        let (years, built) = periods_or_none-some m.periods out h in
        rw built at (build_periods-keeps none m.periods years),
  )
