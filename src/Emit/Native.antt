-- ===== src/Emit/Native.antt =====
-- Merging native blocks: `deepMerge` of internal/emit/native_emit.go. A decoded JSON value is an object
-- or a leaf (a scalar or an array, which the merge does not look into).
pub mod Merge
use meme.Base.{Bool, true, false, Option, none, some, if◌then◌else◌, Text, str_eq}

mutual
  pub data Json (L : Type 0) : Type 0 where
    leaf : L → Json L
    object : Fields L → Json L

  pub data Fields (L : Type 0) : Type 0 where
    no_field : Fields L
    field : Text → Json L → Fields L → Fields L

module _ {L : Type 0} where
  -- `dst[k]`
  unfoldable pub find : Text → Fields L → Option (Json L)
  find k no_field = none
  find k (field j v fs) = if str_eq j k then some v else find k fs

  -- `dst[k] = v`
  unfoldable pub put : Text → Json L → Fields L → Fields L
  put k v no_field = field k v no_field
  put k v (field j w fs) = if str_eq j k then field j v fs else field j w (put k v fs)

unfoldable mutual
  -- What a key holds behind the merge
  pub merged : {L : Type 0} → Json L → Option (Json L) → Json L
  merged (leaf x) old = leaf x
  merged (object s) none = object s
  merged (object s) (some (leaf x)) = object s
  merged (object s) (some (object d)) = object (deep_merge d s)

  -- `deepMerge`
  pub deep_merge : {L : Type 0} → Fields L → Fields L → Fields L
  deep_merge dst no_field = dst
  deep_merge dst (field k v src) = deep_merge (put k (merged v (find k dst)) dst) src
