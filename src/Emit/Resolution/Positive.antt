-- ===== src/Emit/Resolution/Positive.antt =====
-- The sign of a resolution, and the termination of the loop over an ISO duration (internal/emit/timeseries.go).
use meme.Base.{
  ℕ, zero, suc, ◌≤◌, ◌<◌, ◌≡◌, refl, sym, ap, ◌∙◌, Bool, true, false, ◌||◌, Option, none, some, [],
  ◌∷◌, arith, length, length-append, ◌==◌, ℤ, pos, negsuc, ◌<ℤ◌, Float64, Text, trim_space,
  if◌then◌else◌,
}
use meme.Emit.Resolution.{
  Numerals, Rounds, returned, outcome_of, split_number, iso_unit, with_rest, scale_both, iso_base,
  iso_term, then_term, is_t, iso_from, parse_iso_duration, parse_offset_alias, positive,
  parse_trimmed, parse_resolution, or_hour, parse_hours, add_int64,
}
use meme.Emit.Resolution.Numbers.{split_number_lem}

module _ (fl : Float64) (nums : Numerals fl) where
  open fl use {F}
  open nums use {parse_float}

  positive_lem : (o : Option ℤ) (d : ℤ) → positive fl nums o ≡ some d → pos 0 <ℤ d
  unfolding positive
  positive_lem none d h = cc
  positive_lem (some (pos n)) (pos m) h = ground arith
  positive_lem (some (negsuc n)) (pos m) h = ground arith
  positive_lem (some (pos n)) (negsuc m) h = ground arith
  positive_lem (some (negsuc n)) (negsuc m) h = ground arith

  parse_trimmed_positive : (s : Text) (d : ℤ) → parse_trimmed fl nums s ≡ some d → pos 0 <ℤ d
  unfolding parse_trimmed
  parse_trimmed_positive [] d h = cc
  parse_trimmed_positive (c ∷ s) d h =
      positive_lem
        (if (c == b'P') || (c == b'p')
          then parse_iso_duration fl nums s
          else parse_offset_alias fl nums (c ∷ s))
        d h

  or_hour_positive :
      (o : Option ℤ) → ((d : ℤ) → o ≡ some d → pos 0 <ℤ d) → pos 0 <ℤ or_hour fl nums o
  or_hour_positive none h = omega arith
  or_hour_positive (some d) h = h d refl

  parse_hours_positive : (res : Text) → pos 0 <ℤ parse_hours fl nums res
  unfolding parse_hours parse_resolution
  parse_hours_positive [] = omega arith
  parse_hours_positive (c ∷ res) =
      or_hour_positive (parse_resolution fl nums (c ∷ res))
        (parse_trimmed_positive (trim_space (c ∷ res)))

  -- A resolution that is parsed is positive, and so is the lenient reading of any text.
  pub resolution_positive :
      (res : Text)
      → ((d : ℤ) → parse_resolution fl nums res ≡ some d → pos 0 <ℤ d)
        × (pos 0 <ℤ parse_hours fl nums res)
  unfolding parse_resolution
  resolution_positive res =
      (λ d h. parse_trimmed_positive (trim_space res) d h, parse_hours_positive res)

  with_rest_keeps :
      (tail rest : Text) (o : Option ℤ) (x : ℤ)
      → with_rest fl nums tail o ≡ some (x, rest)
      → length rest ≡ length tail
  unfolding with_rest
  with_rest_keeps tail rest none x h = cc
  with_rest_keeps tail rest (some d) x h = cc

  iso_unit_shrinks :
      (in_time : Bool) (num tail rest : Text) (x : ℤ)
      → iso_unit fl nums in_time num tail ≡ some (x, rest)
      → length rest < length tail
  unfolding iso_unit
  iso_unit_shrinks in_time num [] rest x h = cc
  iso_unit_shrinks in_time [] (unit ∷ tail) rest x h = cc
  iso_unit_shrinks in_time (n ∷ num) (unit ∷ tail) rest x h = omega (
    arith,
    with_rest_keeps tail rest (scale_both fl nums (parse_float (n ∷ num)) (iso_base in_time unit)) x
        h,
  )

  iso_term_shrinks :
      (in_time : Bool) (s rest : Text) (x : ℤ)
      → iso_term fl nums in_time s ≡ some (x, rest)
      → length rest < length s
  unfolding iso_term
  iso_term_shrinks in_time s rest x h = omega (
    arith,
    ap length (split_number_lem s).0,
    length-append (split_number s).0 (split_number s).1,
    iso_unit_shrinks in_time (split_number s).0 (split_number s).1 rest x h,
  )

  -- The loop returns with enough rounds, and always the same.
  Returns : (ℕ → Rounds (Option ℤ)) → ℕ → Type 0
  Returns loop bound = (o : Option ℤ) × ((fuel : ℕ) → bound ≤ fuel → loop fuel ≡ returned o)

  then_term-Returns :
      (o : Option (ℤ × Text)) (f : ℕ → ℤ → Text → Rounds (Option ℤ)) (bound : ℕ)
      → ((x : ℤ) (rest : Text) → o ≡ some (x, rest) → Returns (λ fuel. f fuel x rest) bound)
      → Returns (λ fuel. then_term fl nums o (f fuel)) bound
  unfolding Returns then_term
  then_term-Returns none f bound h = (none, λ fuel k. refl)
  then_term-Returns (some (x, rest)) f bound h = h x rest refl

  returns_later :
      (loop : ℕ → Rounds (Option ℤ)) (bound : ℕ) (o : Option ℤ)
      → ((fuel : ℕ) → bound ≤ fuel → loop (suc fuel) ≡ returned o)
      → (fuel : ℕ) → suc bound ≤ fuel
      → loop fuel ≡ returned o
  returns_later loop bound o h zero k = absurd (omega arith)
  returns_later loop bound o h (suc fuel) k = h fuel (omega arith)

  iso_from-Returns :
      (bound : ℕ) (in_time seen : Bool) (d : ℤ) (rest : Text)
      → length rest ≤ bound
      → Returns (λ fuel. iso_from fl nums fuel in_time seen d rest) bound
  unfolding Returns iso_from
  iso_from-Returns bound in_time seen d [] h = (if seen then some d else none, λ fuel k. refl)
  iso_from-Returns zero in_time seen d (c ∷ rest) h = absurd (omega arith)
  iso_from-Returns (suc bound) in_time seen d (c ∷ rest) h =
      let (clock, in_clock) = iso_from-Returns bound true seen d rest (omega arith) in
      let (number, in_number) =
        then_term-Returns (iso_term fl nums in_time (c ∷ rest))
          (λ fuel x more. iso_from fl nums fuel in_time true (add_int64 d x) more) bound
          (λ x left e.
            let shrinks = iso_term_shrinks in_time (c ∷ rest) left x e in
            iso_from-Returns bound in_time true (add_int64 d x) left (omega (arith, h, shrinks))) in
      (
        if is_t fl nums c then (if in_time then none else clock) else number,
        returns_later _ bound _ (λ fuel k.
            rw (in_clock fuel k, in_number fuel k) (chosen (is_t fl nums c) in_time clock number)),
      )
    where
      chosen :
          (a b : Bool) (x y : Option ℤ)
          → (if a then (if b then returned none else returned x) else returned y)
            ≡ returned (if a then (if b then none else x) else y)
      chosen true true x y = refl
      chosen true false x y = refl
      chosen false b x y = refl

  -- The loop over an ISO duration terminates: it returns within as many rounds as the text has bytes, and
  -- with any more of them it returns the same, which is what the parse gives.
  pub iso_from-parse_iso_duration :
      (rest : Text) (fuel : ℕ)
      → length rest ≤ fuel
      → iso_from fl nums fuel false false (pos 0) rest ≡ returned (parse_iso_duration fl nums rest)
  unfolding Returns parse_iso_duration outcome_of
  iso_from-parse_iso_duration rest fuel h =
      let (o, r) = iso_from-Returns (length rest) false false (pos 0) rest (omega arith) in
      r fuel h ∙ ap (λ x. returned (outcome_of x)) (sym (r (length rest) (omega arith)))
