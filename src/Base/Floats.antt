-- ===== src/Base/Floats.antt =====
-- Go's float64, taken as a parameter: its values, the constants and operations that the code uses,
-- and what IEEE 754 says of its comparisons. A comparison with NaN is false.
use mathlib.Core.Path.{◌≡◌}
use mathlib.Core.Bool.{Bool, true, false}
use meme.Base.Int.{ℤ, pos}
use Prim.Native.Nat.{ℕ, suc}

pub record Float64 : Type 1 where
  pub F : Type 0
  pub zero : F
  pub one : F
  pub lt : F → F → Bool
  pub le : F → F → Bool
  pub eq : F → F → Bool
  pub add : F → F → F
  pub mul : F → F → F
  pub div : F → F → F
  pub of_int : ℤ → F
  pub lt_irrefl : (a : F) → lt a a ≡ false
  pub lt_trans : (a b c : F) → lt a b ≡ true → lt b c ≡ true → lt a c ≡ true
  pub le_trans : (a b c : F) → le a b ≡ true → le b c ≡ true → le a c ≡ true
  pub not_le_of_lt : (a b : F) → lt a b ≡ true → le b a ≡ false
  pub one_pos : le one zero ≡ false
  pub of_int_pos : (n : ℕ) → le (of_int (pos (suc n))) zero ≡ false
