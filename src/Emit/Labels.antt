-- ===== src/Emit/Labels.antt =====
-- The labels of the time steps (internal/emit/timeseries.go): `SnapshotLabels`, and the second copy of
-- the date parser, which also tells the layout.
pub mod Counts
use meme.Base.{
  ℕ, zero, suc, ◌+◌, ◌-◌, ◌*◌, ◌%◌, ◌^◌, ◌≤◌, ◌≡◌, refl, ap, ◌∙◌, Bool, true, false, not, ◌&&◌,
  ◌||◌, Option, none, some, List, [], ◌∷◌, ◌++◌, arith, if◌then◌else◌, ltb, ◌==◌, length, take, ℤ,
  pos, pos_part, neg_part, Float64, Text, str_eq, itoa, min, length-append, length-take, take_all,
  take-append_le,
}
use meme.Model.Types.{TimeConfig}
use meme.Model.Dates.{Dates, day_layout, second_layout, date_layouts, try_layouts, parse_date}
use meme.Emit.Resolution.{Numerals, parse_hours, day, to_word, of_word}

-- `time.Duration(n) * step` of an int64
unfoldable pub mul_int64 : ℕ → ℤ → ℤ
mul_int64 n step = of_word (n * to_word step % 2 ^ 64)

-- `strconv.Itoa` of the indices from `i` on
unfoldable pub indices : ℕ → ℕ → List Text
indices zero i = []
indices (suc n) i = itoa i ∷ indices n (suc i)

-- `copy` into `n` places, and what is left for the rest
abbrev pub last_step : Text → List Text → Text
last_step s [] = s
last_step s (t ∷ ts) = last_step t ts

-- `step%(24*time.Hour) != 0`
abbrev pub part_of_day : ℤ → Bool
part_of_day step = not ((pos_part step + neg_part step) % day == 0)

module _ (dates : Dates) where
  open dates use {Time, parse, add, format}

  abbrev pub layout_or : Option Time → Text → Option (Time × Text) → Option (Time × Text)
  layout_or none layout later = later
  layout_or (some t) layout later = some (t, layout)

  -- The loop of `parseDateLayout`
  unfoldable pub try_with_layout : List Text → Text → Option (Time × Text)
  try_with_layout [] s = none
  try_with_layout (layout ∷ layouts) s =
      layout_or (parse layout s) layout (try_with_layout layouts s)

  -- `parseDateLayout`
  unfoldable pub parse_date_layout : Text → Option (Time × Text)
  unfolding try_with_layout
  parse_date_layout s = try_with_layout date_layouts s

  abbrev pub only_time : Option (Time × Text) → Option Time
  only_time none = none
  only_time (some (t, layout)) = some t

  -- `ParseDate`
  unfoldable pub emit_parse_date : Text → Option Time
  unfolding parse_date_layout
  emit_parse_date s = only_time (parse_date_layout s)

  -- `last.Add(time.Duration(i) * step).Format(layout)` for `n` values of `i` from the given one on
  unfoldable pub stamps : Time → ℤ → Text → ℕ → ℕ → List Text
  stamps t step layout zero i = []
  stamps t step layout (suc n) i =
      format (add t (mul_int64 i step)) layout ∷ stamps t step layout n (suc i)

  -- The layout of the continuation
  unfoldable pub continued_layout : Text → ℤ → Text
  continued_layout layout step =
      if str_eq layout day_layout && part_of_day step then second_layout else layout

  -- `extendTimestepLabels`: `n` labels behind `k` explicit ones, the last of which is given.
  unfoldable pub extend_labels : Option (Time × Text) → ℤ → ℕ → ℕ → List Text
  unfolding stamps indices
  extend_labels none step k n = indices n k
  extend_labels (some (last, layout)) step k n = stamps last step (continued_layout layout step) n 1

  -- The labels by start and step
  unfoldable pub regular_labels : Option Time → ℤ → ℕ → List Text
  unfolding stamps indices
  regular_labels none step n = indices n 0
  regular_labels (some start) step n =
      if pos_part step + neg_part step == 0
      then indices n 0
      else stamps start step second_layout n 0

module _ (fl : Float64) (nums : Numerals fl) (dates : Dates) where
  open fl use {F}

  -- `SnapshotLabels` for the explicit time steps, else for the start
  labels_of : Text → ℤ → List Text → ℕ → List Text
  unfolding regular_labels extend_labels
  labels_of start step [] n = regular_labels dates (emit_parse_date dates start) step n
  labels_of start step (s ∷ steps) n =
      let k = length (s ∷ steps) in
      let last = parse_date_layout dates (last_step s steps) in
      take n (s ∷ steps) ++ (if ltb k n then extend_labels dates last step k (n - k) else [])

  -- `SnapshotLabels`
  unfoldable pub snapshot_labels : TimeConfig F → ℕ → List Text
  unfolding labels_of
  snapshot_labels tc n = labels_of tc.start (parse_hours fl nums tc.resolution) tc.timesteps n
