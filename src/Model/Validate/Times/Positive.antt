-- ===== src/Model/Validate/Times/Positive.antt =====
-- The investment periods of a model without problems have positive spans.
use meme.Base.{◌≡◌, false, Option, Float64}
use meme.Model.Types.{Model}
use meme.Model.Periods.{span_before}
use meme.Model.Dates.{Dates}

module _ (fl : Float64) where
  open fl use {F, zero, one, le, of_int, one_pos, of_int_pos}

  abbrev pub IsPositive : F → Type 0
  IsPositive x = le x zero ≡ false

  -- The span before, where there is one, is positive.
  abbrev StartsPositive : Option F → Type 0
  StartsPositive previous = IsPositive (span_before fl previous)
