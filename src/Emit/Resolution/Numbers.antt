-- ===== src/Emit/Resolution/Numbers.antt =====
-- Splitting a number off the front of a text.
use meme.Base.{
  ℕ, ◌≡◌, refl, ap, Bool, true, false, ◌||◌, [], ◌∷◌, ◌++◌, arith, ◌==◌, Text, Bool-cases, inl, inr,
}
use meme.Emit.Resolution.{is_digit, number_char, split_number_from, split_number}

-- At most one dot, and none where one was seen.
abbrev pub DotsAtMost : Bool → Text → Type 0
DotsAtMost dot [] = Unit
DotsAtMost dot (c ∷ s) = (number_char dot c ≡ true) × DotsAtMost (dot || (c == b'.')) s

-- The text that is left does not go on with the number.
abbrev pub StopsNumber : Text → Type 0
StopsNumber [] = Unit
StopsNumber (c ∷ s) = is_digit c ≡ false

abbrev Splits : Bool → Text → Text × Text → Type 0
Splits dot s (num, rest) = (num ++ rest ≡ s) × DotsAtMost dot num × StopsNumber rest

not_digit : (dot : Bool) (c : ℕ) → number_char dot c ≡ false → is_digit c ≡ false
not_digit dot c h = ground arith

split_number_from-Splits : (dot : Bool) (s : Text) → Splits dot s (split_number_from dot s)
unfolding split_number_from
split_number_from-Splits dot [] = (refl, tt, tt)
split_number_from-Splits dot (c ∷ s) = elim (Bool-cases (number_char dot c)) [
  | inl in_number ↦
      let (whole, dots, stops) = split_number_from-Splits (dot || (c == b'.')) s in
      rw in_number (ap (λ t. c ∷ t) whole, (in_number, dots), stops)
  | inr behind ↦ rw behind (refl, tt, not_digit dot c behind)
]

-- A text is split into a number, digits with at most one dot, and a rest that does not go on with a
-- digit; together they are the text.
pub split_number_lem :
    (s : Text)
    → ((split_number s).0 ++ (split_number s).1 ≡ s)
      × DotsAtMost false (split_number s).0
      × StopsNumber (split_number s).1
unfolding split_number
split_number_lem s = split_number_from-Splits false s
