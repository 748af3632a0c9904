-- ===== src/Emit/Native/Merge.antt =====
-- What `deepMerge` of internal/emit/native_emit.go puts at each key.
use meme.Base.{◌≡◌, Option, none, some}
use meme.Emit.Native.{Json, Fields, no_field, field, find, merged}

module _ {L : Type 0} where
  -- A Go map has one entry to a key.
  abbrev pub IsObject : Fields L → Type 0
  IsObject no_field = Unit
  IsObject (field k v fs) = (find k fs ≡ none) × IsObject fs

  -- What the source has at a key, over what the destination has there
  abbrev pub over : Option (Json L) → Option (Json L) → Option (Json L)
  over none old = old
  over (some v) old = some (merged v old)
