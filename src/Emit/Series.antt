-- ===== src/Emit/Series.antt =====
-- The inline series that the emitters write out (internal/emit/timeseries.go): the number of time
-- steps, reading past the end of a series, and the warnings about series that are too short.
pub mod Lengths
use meme.Base.{
  ℕ, zero, suc, ◌+◌, ◌-◌, ◌/◌, Bool, true, false, not, ◌&&◌, Option, none, some, List, [], ◌∷◌,
  ◌++◌, if◌then◌else◌, ltb, leb, length, get_elem?, ℤ, pos, pos_part, ltb_ℤ, Float64, Text, codes,
  str_eq, itoa, Map, lookup, sort_strings, get_or_else,
}
use meme.Model.Types.{TimeSeries, TimeConfig, Model}
use meme.Model.Dates.{Dates, parse_date}
use meme.Emit.Resolution.{Numerals, parse_hours}

-- The warning about one series; `quote` is %q.
short_message : (Text → Text) → Text → ℕ → ℕ → Text
short_message quote id len n =
    codes "timeseries "
    ++ quote id
    ++ codes ": "
    ++ itoa len
    ++ codes " values but the emitted time index has "
    ++ itoa n
    ++ codes " steps; the last value will be repeated"

-- The warning about the explicit time steps.
steps_message : ℕ → ℕ → List Text
steps_message k n =
    if ltb 0 k && ltb k n
    then (codes "time.timesteps lists "
        ++ itoa k
        ++ codes " labels but the emitted time index has "
        ++ itoa n
        ++ codes " steps; labels will be extended at the model resolution")
      ∷ []
    else []

module _ {F : Type 0} where
  -- `ts.Source == "inline"`
  unfoldable pub inline_source : TimeSeries F → Bool
  inline_source ts = str_eq ts.source (codes "inline")

  -- The loop for the longest inline series, from `n` on.
  unfoldable pub longest_inline : Map (TimeSeries F) → ℕ → ℕ
  longest_inline [] n = n
  longest_inline ((id, ts) ∷ m) n =
      let longer = longest_inline m (length ts.values) in
      let same = longest_inline m n in
      if inline_source ts && ltb n (length ts.values) then longer else same

  values_if_inline : Option (TimeSeries F) → Option (List F)
  values_if_inline none = none
  values_if_inline (some ts) = if inline_source ts then some ts.values else none

  -- `SeriesValues`
  unfoldable pub series_values : Model F → Text → Option (List F)
  unfolding values_if_inline
  series_values m id = values_if_inline (lookup id m.timeseries)

  -- `vals[len(vals)-1]`, of `zero` where there is none
  unfoldable pub last_of : F → List F → F
  last_of z [] = z
  last_of z (x ∷ xs) = last_of x xs

  -- `SeriesAt`; `z` is 0
  unfoldable pub series_at : F → List F → ℕ → F
  unfolding last_of
  series_at z xs i = get_or_else (get_elem? xs i) (last_of z xs)

  -- `MaxSeriesLen`: the loops over the column sets and their columns
  unfoldable pub max_columns : Model F → Map Text → ℕ → ℕ
  max_columns m [] n = n
  max_columns m ((col, id) ∷ cols) n =
      let len = length (get_or_else (series_values m id) []) in
      let longer = max_columns m cols len in
      let same = max_columns m cols n in if ltb n len then longer else same

  max_sets : Model F → List (Map Text) → ℕ → ℕ
  unfolding max_columns
  max_sets m [] n = n
  max_sets m (cols ∷ sets) n = max_sets m sets (max_columns m cols n)

  unfoldable pub max_series_len : Model F → List (Map Text) → ℕ
  unfolding max_sets
  max_series_len m sets = max_sets m sets 0

  -- The loop over the registry.
  unfoldable pub short_messages : (Text → Text) → ℕ → Map (TimeSeries F) → List Text
  unfolding short_message
  short_messages quote n [] = []
  short_messages quote n ((id, ts) ∷ m) =
      let rest = short_messages quote n m in
      if inline_source ts && ltb (length ts.values) n
      then short_message quote id (length ts.values) n ∷ rest
      else rest

  -- `SeriesLengthMismatches`
  unfoldable pub series_length_mismatches : (Text → Text) → Model F → List Text
  unfolding steps_message
  series_length_mismatches quote m =
      let n = longest_inline m.timeseries 0 in
      let found = sort_strings (short_messages quote n m.timeseries) in
      if leb n 0 then [] else found ++ steps_message (length m.time.timesteps) n

module _ (fl : Float64) (nums : Numerals fl) (dates : Dates) where
  open fl use {F}
  open dates use {Time, after, sub}

  -- The count that the time range implies, else 24. `end.Sub(start)` is positive behind `After`.
  range_count : Option Time → Option Time → ℤ → ℕ
  range_count (some start) (some end) step =
      if ltb_ℤ (pos 0) step && after end start
      then pos_part (sub end start) / pos_part step + 1
      else 24
  range_count _ _ step = 24

  -- `SnapshotCount`
  unfoldable pub snapshot_count : Model F → ℕ
  unfolding range_count
  snapshot_count m =
      let n = longest_inline m.timeseries 0 in
      let steps = length m.time.timesteps in
      let range =
        range_count (parse_date dates m.time.start) (parse_date dates m.time.end)
          (parse_hours fl nums m.time.resolution) in
      if ltb 0 n then n else if ltb 0 steps then steps else range
