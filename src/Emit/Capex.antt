-- ===== src/Emit/Capex.antt =====
-- The annuity of an investment: `AnnualizedCapex` of internal/emit/emit.go.
use meme.Base.{Bool, ◌||◌, if◌then◌else◌, Float64, Text}

-- What the code uses of packages math and strconv, subtraction, and the literal 1e-6.
pub record Powers (fl : Float64) : Type 0 where
  pub sub : fl.F → fl.F → fl.F
  pub neg : fl.F → fl.F
  pub abs : fl.F → fl.F
  pub pow : fl.F → fl.F → fl.F
  pub expm1 : fl.F → fl.F
  pub log1p : fl.F → fl.F
  pub nan : fl.F
  pub is_nan : fl.F → Bool
  pub is_inf : fl.F → Bool
  pub small_rate : fl.F
  pub format_float : fl.F → Text

module _ (fl : Float64) (ps : Powers fl) where
  open fl use {F, zero, one, le, eq, add, mul, div}
  open ps use {sub, neg, abs, pow, expm1, log1p, nan, is_nan, is_inf, small_rate}

  abbrev pub undefined_rate : F → Bool
  undefined_rate crf = is_nan crf || is_inf crf

  -- The textbook factor, where the rate is not close to zero
  abbrev textbook : F → F → F
  textbook rate life =
      let pw = pow (add one rate) life in
      if le small_rate (abs rate) then div (mul rate pw) (sub pw one) else nan

  -- The factor for the regions where the textbook one cancels or overflows
  abbrev stable : F → F → F
  stable rate life = div rate (neg (expm1 (mul (neg life) (log1p rate))))

  unfoldable pub recovery_factor : F → F → F
  recovery_factor rate life =
      let crf = textbook rate life in if undefined_rate crf then stable rate life else crf

  -- `AnnualizedCapex`
  unfoldable pub annualized_capex : F → F → F → F
  annualized_capex overnight rate life =
      let crf = recovery_factor rate life in
      if le life zero
      then overnight
      else if eq rate zero
      then div overnight life
      else if undefined_rate crf
      then div overnight life
      else mul overnight crf
