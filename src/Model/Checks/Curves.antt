-- ===== src/Model/Checks/Curves.antt =====
-- What the validation of a piecewise performance curve accepts.
use meme.Base.{
  ℕ, suc, ◌≤◌, ◌≡◌, refl, ◌↔◌, false, none, some, List, [], ◌∷◌, arith, length, negsuc, Float64,
  codes, str_eq,
}
use meme.Model.Types.{Breakpoint, Performance}
use meme.Model.Checks.{
  check_breakpoints, piecewise_error, min_load_error, validate_performance, perf_kind, outside_unit,
}

module _ (fl : Float64) where
  open fl use {F, zero, one, lt, le, of_int}

  -- Loads within [0, 1] that rise from `prev` on, with positive efficiencies.
  abbrev pub Rises : F → List (Breakpoint F) → Type 0
  Rises prev [] = Unit
  Rises prev (b ∷ bs) =
      (lt b.load zero ≡ false)
      × (lt one b.load ≡ false)
      × (le b.load prev ≡ false)
      × (le b.efficiency zero ≡ false)
      × Rises b.load bs

  check_breakpoints-none_iff :
      (i : ℕ) (prev : F) (bs : List (Breakpoint F))
      → (check_breakpoints fl i prev bs ≡ none) ↔ Rises prev bs
  unfolding check_breakpoints
  check_breakpoints-none_iff i prev [] = (λ h. tt, λ h. refl)
  check_breakpoints-none_iff i prev (b ∷ bs) =
      ground (arith, check_breakpoints-none_iff (suc i) b.load bs)

  -- A piecewise performance is accepted exactly if it has two breakpoints or more, their loads rise
  -- from above -1 within [0, 1], their efficiencies are positive, and a minimum load that is given is
  -- within [0, 1].
  pub validate_performance-piecewise :
      (p : Performance F)
      → p.kind ≡ codes "piecewise"
      → (validate_performance fl (some p) ≡ none) ↔ (
          (2 ≤ length p.breakpoints)
          × Rises (of_int (negsuc 0)) p.breakpoints
          × (outside_unit fl p.min_load ≡ false))
  unfolding validate_performance piecewise_error min_load_error perf_kind str_eq
  validate_performance-piecewise p h =
      rw h (ground (arith, check_breakpoints-none_iff 0 (of_int (negsuc 0)) p.breakpoints))
