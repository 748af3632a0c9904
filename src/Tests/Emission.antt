-- ===== src/Tests/Emission.antt =====
-- Resolutions and series.
use meme.Base.{◌≡◌, false, some, arith, codes, ℤ, pos, ◌<ℤ◌}
use meme.Emit.Resolution.{
  Numerals, parse_resolution, parse_hours, returned, parse_iso_duration, iso_from,
}
use meme.Emit.Resolution.Positive.{resolution_positive, iso_from-parse_iso_duration}
use meme.Tests.Fixtures.{naturals}

abbrev numerals : Numerals naturals
numerals = record { parse_float = λ s. some 2; to_int64 = λ n. pos n }

resolution_positive_example :
    ((d : ℤ) → parse_resolution naturals numerals (codes "PT1H30M") ≡ some d → pos 0 <ℤ d)
    × (pos 0 <ℤ parse_hours naturals numerals (codes "PT1H30M"))
resolution_positive_example = resolution_positive naturals numerals (codes "PT1H30M")

iso_from-parse_iso_duration_example :
    iso_from naturals numerals 9 false false (pos 0) (codes "T1H30M")
    ≡ returned (parse_iso_duration naturals numerals (codes "T1H30M"))
iso_from-parse_iso_duration_example =
    iso_from-parse_iso_duration naturals numerals (codes "T1H30M") 9 (omega arith)
