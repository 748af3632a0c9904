-- ===== src/Emit/Labels/Counts.antt =====
-- How many labels there are, that the explicit ones stay, and that the two date parsers agree.
use meme.Base.{
  ℕ, zero, suc, ◌-◌, ◌≡◌, refl, ap, ◌∙◌, Option, none, some, List, [], ◌∷◌, arith, ltb, length,
  take, ℤ, Float64, Text, length-append, length-take, Bool-cases, inl, inr,
}
use meme.Model.Types.{TimeConfig}
use meme.Model.Dates.{Dates, second_layout, date_layouts, try_layouts, parse_date}
use meme.Emit.Resolution.{Numerals, parse_hours}
use meme.Emit.Labels.{
  indices, last_step, try_with_layout, parse_date_layout, emit_parse_date, only_time, stamps,
  continued_layout, extend_labels, regular_labels, labels_of, snapshot_labels,
}

length-indices : (n i : ℕ) → length (indices n i) ≡ n
unfolding indices
length-indices zero i = refl
length-indices (suc n) i = ap suc (length-indices n (suc i))

module _ (dates : Dates) where
  open dates use {Time, parse}

  try_layouts-try_with_layout :
      (layouts : List Text) (s : Text)
      → only_time dates (try_with_layout dates layouts s) ≡ try_layouts dates layouts s
  unfolding try_with_layout try_layouts
  try_layouts-try_with_layout [] s = refl
  try_layouts-try_with_layout (layout ∷ layouts) s =
      ground (arith, try_layouts-try_with_layout layouts s)

  -- The emitters' copy of the date parser reads the same instant as that of the model.
  pub emit_parse_date_lem : (s : Text) → emit_parse_date dates s ≡ parse_date dates s
  unfolding emit_parse_date parse_date
  emit_parse_date_lem s = try_layouts-try_with_layout date_layouts s

  length-stamps :
      (t : Time) (step : ℤ) (layout : Text) (n i : ℕ) → length (stamps dates t step layout n i) ≡ n
  unfolding stamps
  length-stamps t step layout zero i = refl
  length-stamps t step layout (suc n) i = ap suc (length-stamps t step layout n (suc i))

  length-extend_labels :
      (last : Option (Time × Text)) (step : ℤ) (k n : ℕ)
      → length (extend_labels dates last step k n) ≡ n
  unfolding extend_labels
  length-extend_labels none step k n = length-indices n k
  length-extend_labels (some (last, layout)) step k n =
      length-stamps last step (continued_layout dates layout step) n 1

  length-regular_labels :
      (start : Option Time) (step : ℤ) (n : ℕ) → length (regular_labels dates start step n) ≡ n
  unfolding regular_labels
  length-regular_labels none step n = length-indices n 0
  length-regular_labels (some start) step n =
      ground (arith, length-indices n 0, length-stamps start step second_layout n 0)

module _ (fl : Float64) (nums : Numerals fl) (dates : Dates) where
  open fl use {F}

  length-labels_of :
      (start : Text) (step : ℤ) (steps : List Text) (n : ℕ)
      → length (labels_of fl nums dates start step steps n) ≡ n
  unfolding labels_of
  length-labels_of start step [] n =
      length-regular_labels dates (emit_parse_date dates start) step n
  length-labels_of start step (s ∷ steps) n =
      let k = length (s ∷ steps) in
      let last = parse_date_layout dates (last_step s steps) in
      elim (Bool-cases (ltb k n)) [
        | inl h ↦ rw h (
            length-append (take n (s ∷ steps)) (extend_labels dates last step k (n - k))
            ∙ ground
                (arith, length-take n (s ∷ steps), length-extend_labels dates last step k (n - k)))
        | inr h ↦
            rw h (length-append (take n (s ∷ steps)) [] ∙ ground (arith, length-take n (s ∷ steps)))
      ]

  -- There is one label to each of the `n` time steps.
  pub length-snapshot_labels :
      (tc : TimeConfig F) (n : ℕ) → length (snapshot_labels fl nums dates tc n) ≡ n
  unfolding snapshot_labels
  length-snapshot_labels tc n =
      length-labels_of tc.start (parse_hours fl nums tc.resolution) tc.timesteps n
