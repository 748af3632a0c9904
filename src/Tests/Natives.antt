-- ===== src/Tests/Natives.antt =====
-- Merging a native block into an emitted file.
use meme.Base.{ℕ, ◌≡◌, refl, codes, str_eq}
use meme.Emit.Native.{leaf, object, Fields, no_field, field, find, put, deep_merge}

abbrev emitted : Fields ℕ
emitted =
    field (codes "solver")
      (object (field (codes "gap") (leaf 1) (field (codes "threads") (leaf 4) no_field)))
      (field (codes "scale") (leaf 7) no_field)

abbrev native : Fields ℕ
native =
    field (codes "solver") (object (field (codes "gap") (leaf 2) no_field))
      (field (codes "scale") (object no_field) no_field)

native-merged :
    deep_merge emitted native
    ≡ field
        (codes "solver")
        (object (field (codes "gap") (leaf 2) (field (codes "threads") (leaf 4) no_field)))
        (field (codes "scale") (object no_field) no_field)
unfolding deep_merge find put str_eq
native-merged = refl
