-- ===== src/Emit/Series/Lengths.antt =====
-- The number of time steps against the lengths of the series.
use meme.Base.{
  ℕ, ◌≤◌, ◌≡◌, refl, ◌↔◌, ◌⊎◌, inl, inr, true, Option, none, some, List, [], ◌∷◌, ◌++◌, arith,
  length, ◌≢◌, All, In, Float64, Text, sort_strings, insert_sorted, Map,
}
use meme.Model.Types.{TimeSeries, Model}
use mathlib.Core.Path.{subst}
use meme.Emit.Resolution.{Numerals, parse_hours}
use meme.Model.Dates.{Dates, parse_date}
use meme.Emit.Series.{
  inline_source, longest_inline, short_messages, steps_message, series_length_mismatches,
  range_count, snapshot_count,
}

module _ {F : Type 0} where
  longest_inline_from : (m : Map (TimeSeries F)) (n : ℕ) → n ≤ longest_inline m n
  unfolding longest_inline
  longest_inline_from [] n = omega arith
  longest_inline_from ((id, ts) ∷ m) n =
      ground (arith, longest_inline_from m n, longest_inline_from m (length ts.values))

  longest_inline_head :
      (id : Text) (ts : TimeSeries F) (m : Map (TimeSeries F)) (n : ℕ)
      → inline_source ts ≡ true
      → length ts.values ≤ longest_inline ((id, ts) ∷ m) n
  unfolding longest_inline
  longest_inline_head id ts m n h =
      ground (arith, longest_inline_from m n, longest_inline_from m (length ts.values))

  longest_inline_bounds :
      (id : Text) (ts : TimeSeries F) (m : Map (TimeSeries F)) (n : ℕ)
      → In (id, ts) m
      → inline_source ts ≡ true
      → length ts.values ≤ longest_inline m n
  unfolding longest_inline
  longest_inline_bounds id ts [] n i h = elim i [ ]
  longest_inline_bounds id ts ((j, us) ∷ m) n (inl e) h =
      subst (λ e'. length ts.values ≤ longest_inline (e' ∷ m) n) e (longest_inline_head id ts m n h)
  longest_inline_bounds id ts ((j, us) ∷ m) n (inr i) h = ground (
    arith,
    longest_inline_bounds id ts m n i h,
    longest_inline_bounds id ts m (length us.values) i h,
  )

insert_sorted_some : (k : Text) (ks : List Text) → insert_sorted k ks ≢ []
unfolding insert_sorted
insert_sorted_some k [] h = cc
insert_sorted_some k (j ∷ js) h = ground arith

sort_strings-nil_iff : (ks : List Text) → (sort_strings ks ≡ []) ↔ (ks ≡ [])
unfolding sort_strings
sort_strings-nil_iff [] = (λ h. refl, λ h. refl)
sort_strings-nil_iff (k ∷ ks) = (λ h. elim (insert_sorted_some k (sort_strings ks) h) [ ], λ h. cc)

append-nil_iff : {A : Type 0} (xs ys : List A) → ((xs ++ ys) ≡ []) ↔ ((xs ≡ []) × (ys ≡ []))
append-nil_iff [] ys = ground arith
append-nil_iff (x ∷ xs) ys = (λ h. cc, λ (h, _). cc)

steps_message-nil_iff : (k n : ℕ) → (steps_message k n ≡ []) ↔ ((k ≡ 0) ⊎ (n ≤ k))
unfolding steps_message
steps_message-nil_iff k n = ground arith

module _ {F : Type 0} where
  -- Every inline series has at least `n` values.
  abbrev pub ReachesAll : ℕ → Map (TimeSeries F) → Type 0
  ReachesAll n = All (λ (id, ts). inline_source ts ≡ true → n ≤ length ts.values)

  short_messages-nil_iff :
      (quote : Text → Text) (n : ℕ) (m : Map (TimeSeries F))
      → (short_messages quote n m ≡ []) ↔ ReachesAll n m
  unfolding short_messages
  short_messages-nil_iff quote n [] = (λ h. tt, λ h. refl)
  short_messages-nil_iff quote n ((id, ts) ∷ m) = ground (arith, short_messages-nil_iff quote n m)

  ReachesAll-zero : (n : ℕ) (m : Map (TimeSeries F)) → n ≡ 0 → ReachesAll n m
  ReachesAll-zero n [] e = tt
  ReachesAll-zero n ((id, ts) ∷ m) e = (λ _. omega arith, ReachesAll-zero n m e)

  -- No warning is given about the lengths exactly if each inline series reaches the longest one and
  -- the explicit time steps, where there are any, do too.
  pub series_length_mismatches-nil_iff :
      (quote : Text → Text) (m : Model F)
      → let n = longest_inline m.timeseries 0 in
        (series_length_mismatches quote m ≡ []) ↔ (
          ReachesAll n m.timeseries
          × ((length m.time.timesteps ≡ 0) ⊎ (n ≤ length m.time.timesteps)))
  unfolding series_length_mismatches
  series_length_mismatches-nil_iff quote m =
      let n = longest_inline m.timeseries 0 in
      let k = length m.time.timesteps in
      let shorts = short_messages quote n m.timeseries in
      ground (
        arith,
        append-nil_iff (sort_strings shorts) (steps_message k n),
        sort_strings-nil_iff shorts,
        short_messages-nil_iff quote n m.timeseries,
        steps_message-nil_iff k n,
        ReachesAll-zero n m.timeseries,
      )

module _ (fl : Float64) (nums : Numerals fl) (dates : Dates) where
  open fl use {F}
  open dates use {Time}

  range_count_positive :
      (start end : Option Time) (step : _) → 1 ≤ range_count fl nums dates start end step
  unfolding range_count
  range_count_positive none end step = omega arith
  range_count_positive (some s) none step = omega arith
  range_count_positive (some s) (some e) step = ground arith

  -- There is at least one time step, and no inline series has more values than there are steps.
  pub snapshot_count_bounds :
      (m : Model F)
      → (1 ≤ snapshot_count fl nums dates m)
        × ((id : Text) (ts : TimeSeries F)
            → In (id, ts) m.timeseries
            → inline_source ts ≡ true
            → length ts.values ≤ snapshot_count fl nums dates m)
  unfolding snapshot_count
  snapshot_count_bounds m = (
    ground (
      arith,
      range_count_positive (parse_date dates m.time.start) (parse_date dates m.time.end)
          (parse_hours fl nums m.time.resolution),
    ),
    λ id ts i h. ground (arith, longest_inline_bounds id ts m.timeseries 0 i h),
  )
