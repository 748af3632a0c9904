-- ===== src/Model/Dates.antt =====
-- `parseDate` and `parseableDate` of internal/model/validate.go. What they use of package time is a
-- parameter.
use meme.Base.{Bool, Option, none, some, List, [], ◌∷◌, ℤ, Text, codes, is_some}

-- Of package time: instants, `Parse` by a layout (an error is `none`), `After`, `Sub`, `Add` and
-- `Format` by a layout. A duration is a number of nanoseconds.
pub record Dates : Type 1 where
  pub Time : Type 0
  pub parse : Text → Text → Option Time
  pub after : Time → Time → Bool
  pub sub : Time → Time → ℤ
  pub add : Time → ℤ → Time
  pub format : Time → Text → Text

-- The layouts in the order of the list; the first is time.RFC3339.
abbrev pub day_layout : Text
day_layout = codes "2006-01-02"

abbrev pub second_layout : Text
second_layout = codes "2006-01-02 15:04:05"

abbrev pub date_layouts : List Text
date_layouts =
    codes "2006-01-02T15:04:05Z07:00"
    ∷ codes "2006-01-02T15:04:05"
    ∷ second_layout
    ∷ codes "2006-01-02T15:04"
    ∷ codes "2006-01-02 15:04"
    ∷ day_layout
    ∷ []

module _ (dates : Dates) where
  open dates use {Time, parse}

  abbrev first_parse : Option Time → Option Time → Option Time
  first_parse none later = later
  first_parse (some t) later = some t

  -- The loop over the layouts
  unfoldable pub try_layouts : List Text → Text → Option Time
  try_layouts [] s = none
  try_layouts (layout ∷ layouts) s = first_parse (parse layout s) (try_layouts layouts s)

  -- `parseDate`
  unfoldable pub parse_date : Text → Option Time
  unfolding try_layouts
  parse_date s = try_layouts date_layouts s

  -- `parseableDate`
  unfoldable pub parseable_date : Text → Bool
  parseable_date s = is_some (parse_date s)
