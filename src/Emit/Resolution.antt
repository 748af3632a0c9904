-- ===== src/Emit/Resolution.antt =====
-- Temporal resolutions (internal/emit/timeseries.go): offset aliases ("30min") and ISO 8601
-- durations ("PT1H30M"). A duration is an int64 of nanoseconds, whose sum wraps. An error is `none`.
pub mod Numbers
pub mod Positive
use meme.Base.{
  ℕ, zero, suc, ◌+◌, ◌-◌, ◌*◌, ◌%◌, ◌^◌, Bool, true, false, not, ◌&&◌, ◌||◌, Option, none, some,
  List, [], ◌∷◌, if◌then◌else◌, ltb, leb, ◌==◌, length, ℤ, pos, negsuc, leb_ℤ, Float64, Text, codes,
  str_eq, trim_space, to_lower,
}

-- What the parser uses of other packages: strconv.ParseFloat at 64 bits, whose error is `none`, and
-- the conversion of a float to an int64.
pub record Numerals (fl : Float64) : Type 0 where
  pub parse_float : Text → Option fl.F
  pub to_int64 : fl.F → ℤ

abbrev pub second : ℕ
second = 1000000000

abbrev pub minute : ℕ
minute = 60 * second

abbrev pub hour : ℕ
hour = 60 * minute

abbrev pub day : ℕ
day = 24 * hour

-- The two's complement of an int64, and back.
unfoldable pub to_word : ℤ → ℕ
to_word (pos n) = n % 2 ^ 64
to_word (negsuc n) = 2 ^ 64 - 1 - n % 2 ^ 64

unfoldable pub of_word : ℕ → ℤ
of_word n = if ltb n (2 ^ 63) then pos n else negsuc (2 ^ 64 - 1 - n)

-- The sum of two int64
pub add_int64 : ℤ → ℤ → ℤ
unfolding to_word of_word
add_int64 a b = of_word ((to_word a + to_word b) % 2 ^ 64)

-- `s[i] >= '0' && s[i] <= '9' || s[i] == '.' && !dot`
abbrev pub is_digit : ℕ → Bool
is_digit c = leb b'0' c && leb c b'9'

abbrev pub number_char : Bool → ℕ → Bool
number_char dot c = is_digit c || ((c == b'.') && not dot)

-- The loop of `splitNumber`; `dot` says that a dot was seen.
unfoldable pub split_number_from : Bool → Text → Text × Text
split_number_from dot [] = ([], [])
split_number_from dot (c ∷ s) =
    let (num, rest) = split_number_from (dot || (c == b'.')) s in
    if number_char dot c then (c ∷ num, rest) else ([], c ∷ s)

-- `splitNumber`
unfoldable pub split_number : Text → Text × Text
unfolding split_number_from
split_number s = split_number_from false s

-- The switch on the unit of an offset alias.
unfoldable pub alias_base : Text → Option ℕ
alias_base unit =
    let u = to_lower unit in
    if str_eq u (codes "h") || str_eq u []
    then some hour
    else if str_eq u (codes "min") || str_eq u (codes "t")
    then some minute
    else if str_eq u (codes "s")
    then some second
    else if str_eq u (codes "d")
    then some day
    else none

-- The switch on the designator of an ISO duration.
unfoldable pub iso_base : Bool → ℕ → Option ℕ
iso_base in_time unit =
    if not in_time && ((unit == b'D') || (unit == b'd'))
    then some day
    else if in_time && ((unit == b'H') || (unit == b'h'))
    then some hour
    else if in_time && ((unit == b'M') || (unit == b'm'))
    then some minute
    else if in_time && ((unit == b'S') || (unit == b's'))
    then some second
    else none

-- How a bounded number of rounds of a loop ends: the loop is not over, or it returned.
pub data Rounds (A : Type 0) : Type 0 where
  unfinished : Rounds A
  returned : A → Rounds A

-- The loop of the code has no bound: `parse_iso_duration` gives it rounds enough to return.
unfoldable pub outcome_of : Rounds (Option ℤ) → Option ℤ
outcome_of unfinished = none
outcome_of (returned o) = o

module _ (fl : Float64) (nums : Numerals fl) where
  open fl use {F, one, mul, of_int}
  open nums use {parse_float, to_int64}

  -- `time.Duration(count * float64(base))`
  unfoldable pub scale : F → ℕ → ℤ
  scale count base = to_int64 (mul count (of_int (pos base)))

  -- An empty count is 1.
  unfoldable pub count_of : Text → Option F
  count_of [] = some one
  count_of (c ∷ num) = parse_float (c ∷ num)

  scale_both : Option F → Option ℕ → Option ℤ
  unfolding scale
  scale_both none base = none
  scale_both (some count) none = none
  scale_both (some count) (some base) = some (scale count base)

  -- `parseOffsetAlias`
  unfoldable pub parse_offset_alias : Text → Option ℤ
  unfolding scale_both
  parse_offset_alias s =
      let (num, unit) = split_number s in scale_both (count_of num) (alias_base unit)

  with_rest : Text → Option ℤ → Option (ℤ × Text)
  with_rest rest none = none
  with_rest rest (some d) = some (d, rest)

  iso_unit : Bool → Text → Text → Option (ℤ × Text)
  unfolding with_rest scale_both
  iso_unit in_time num [] = none
  iso_unit in_time [] tail = none
  iso_unit in_time (n ∷ num) (unit ∷ rest) =
      with_rest rest (scale_both (parse_float (n ∷ num)) (iso_base in_time unit))

  -- A number and its unit, off the front of the text: the duration and what is left.
  unfoldable pub iso_term : Bool → Text → Option (ℤ × Text)
  unfolding iso_unit
  iso_term in_time s = let (num, tail) = split_number s in iso_unit in_time num tail

  then_term : Option (ℤ × Text) → (ℤ → Text → Rounds (Option ℤ)) → Rounds (Option ℤ)
  then_term none f = returned none
  then_term (some (d, rest)) f = f d rest

  abbrev is_t : ℕ → Bool
  is_t c = (c == b'T') || (c == b't')

  -- The loop of `parseISODuration`: `d` is the sum so far and `seen` says that there is one. Each
  -- round takes at least one byte off the text.
  unfoldable pub iso_from : ℕ → Bool → Bool → ℤ → Text → Rounds (Option ℤ)
  unfolding then_term
  iso_from fuel in_time seen d [] = returned (if seen then some d else none)
  iso_from zero in_time seen d (c ∷ rest) = unfinished
  iso_from (suc fuel) in_time seen d (c ∷ rest) =
      let in_clock = iso_from fuel true seen d rest in
      let number =
        then_term (iso_term in_time (c ∷ rest))
          (λ x more. iso_from fuel in_time true (add_int64 d x) more) in
      if is_t c then (if in_time then returned none else in_clock) else number

  -- `parseISODuration` of a text without its first byte; the length is fuel enough.
  unfoldable pub parse_iso_duration : Text → Option ℤ
  unfolding iso_from
  parse_iso_duration rest = outcome_of (iso_from (length rest) false false (pos 0) rest)

  positive : Option ℤ → Option ℤ
  positive none = none
  positive (some d) = if leb_ℤ d (pos 0) then none else some d

  parse_trimmed : Text → Option ℤ
  unfolding positive
  parse_trimmed [] = none
  parse_trimmed (c ∷ s) =
      positive
        (if (c == b'P') || (c == b'p') then parse_iso_duration s else parse_offset_alias (c ∷ s))

  -- `ParseResolution`
  unfoldable pub parse_resolution : Text → Option ℤ
  unfolding parse_trimmed
  parse_resolution res = parse_trimmed (trim_space res)

  abbrev or_hour : Option ℤ → ℤ
  or_hour none = pos hour
  or_hour (some d) = d

  -- `ParseHours`
  unfoldable pub parse_hours : Text → ℤ
  parse_hours [] = pos hour
  parse_hours (c ∷ res) = or_hour (parse_resolution (c ∷ res))
