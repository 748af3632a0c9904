-- ===== src/Model/Values.antt =====
-- The parameter values of internal/model/types.go: reading one number out of a scalar or an indexed
-- parameter. An index out of range, which panics, is `out_of_range`.
pub mod Selection
use meme.Base.{
  ℕ, suc, Bool, true, false, not, ◌&&◌, Option, none, some, List, [], ◌∷◌, if◌then◌else◌, ltb, ◌==◌,
  length, get_elem?, Float64, Text, codes, str_eq, trim_prefix,
}
use meme.Model.Types.{IndexedParam, Value}

-- What `Select` comes to: a number, nothing, or a panic.
pub data Selected (F : Type 0) : Type 0 where
  found : F → Selected F
  absent : Selected F
  out_of_range : Selected F

-- The inconsistencies of `StructuralError`.
pub data Structural : Type 0 where
  lengths_differ : ℕ → ℕ → Structural
  tuple_differs : ℕ → ℕ → ℕ → Structural

module _ {F : Type 0} where
  -- `IsSeries`
  unfoldable pub is_series : Option (Value F) → Bool
  is_series none = false
  is_series (some v) = not (str_eq v.ref [])

  -- `IsInline`
  unfoldable pub is_inline : Option (Value F) → Bool
  is_inline none = false
  is_inline (some v) = ltb 0 (length v.inline)

  -- `SeriesID`
  unfoldable pub series_id : Value F → Text
  series_id v = trim_prefix v.ref (codes "ts:")

  single : List F → Option F
  single (x ∷ []) = some x
  single _ = none

  reduce_indexed : Option (IndexedParam F) → Option F
  unfolding single
  reduce_indexed none = none
  reduce_indexed (some ip) = single ip.values

  reduce_value : Option F → Option (IndexedParam F) → Option F
  unfolding reduce_indexed
  reduce_value (some x) indexed = some x
  reduce_value none indexed = reduce_indexed indexed

  -- `Reduce`; `none` is its false
  unfoldable pub reduce : Option (Value F) → Option F
  unfolding reduce_value
  reduce none = none
  reduce (some v) = reduce_value v.scalar v.indexed

-- The loop for the dimension: the first position of `dim` from `i` on.
unfoldable pub find_dim : Text → List Text → ℕ → Option ℕ
find_dim dim [] i = none
find_dim dim (d ∷ dims) i =
    let later = find_dim dim dims (suc i) in if str_eq d dim then some i else later

-- `di < len(tup) && tup[di] == key`
abbrev pub coord_is : Text → Option Text → Bool
coord_is key none = false
coord_is key (some c) = str_eq c key

unfoldable pub tuple_matches : ℕ → Text → List Text → Bool
tuple_matches di key tup = coord_is key (get_elem? tup di)

-- The loop for the tuple: the first position from `i` on whose tuple matches.
unfoldable pub find_tuple : ℕ → Text → List (List Text) → ℕ → Option ℕ
unfolding tuple_matches
find_tuple di key [] i = none
find_tuple di key (tup ∷ tuples) i =
    let later = find_tuple di key tuples (suc i) in
    if tuple_matches di key tup then some i else later

-- The loop over the tuples: each has a coordinate to a dimension.
tuples_error : List (List Text) → ℕ → ℕ → Option Structural
tuples_error [] n i = none
tuples_error (tup ∷ tuples) n i =
    let later = tuples_error tuples n (suc i) in
    if not (length tup == n) then some (tuple_differs i (length tup) n) else later

module _ {F : Type 0} where
  -- `v.Indexed.Data[i]`
  abbrev pub data_at : Option F → Selected F
  data_at none = out_of_range
  data_at (some x) = found x

  select_tuple : List F → Option ℕ → Selected F
  select_tuple xs none = absent
  select_tuple xs (some i) = data_at (get_elem? xs i)

  select_dim : IndexedParam F → Text → Option ℕ → Selected F
  unfolding select_tuple
  select_dim ip key none = absent
  select_dim ip key (some di) = select_tuple ip.values (find_tuple di key ip.index 0)

  abbrev scalar_or_absent : Option F → Selected F
  scalar_or_absent none = absent
  scalar_or_absent (some x) = found x

  select_value : Option F → Option (IndexedParam F) → Text → Text → Selected F
  unfolding select_dim
  select_value scalar none dim key = scalar_or_absent scalar
  select_value scalar (some ip) dim key = select_dim ip key (find_dim dim ip.dims 0)

  -- `Select`
  unfoldable pub select : Option (Value F) → Text → Text → Selected F
  unfolding select_value
  select none dim key = absent
  select (some v) dim key = select_value v.scalar v.indexed dim key

  indexed_error : Option (IndexedParam F) → Option Structural
  unfolding tuples_error
  indexed_error none = none
  indexed_error (some ip) =
      if not (length ip.values == length ip.index)
      then some (lengths_differ (length ip.values) (length ip.index))
      else tuples_error ip.index (length ip.dims) 0

  -- `StructuralError`
  unfoldable pub structural_error : Option (Value F) → Option Structural
  unfolding indexed_error
  structural_error none = none
  structural_error (some v) = indexed_error v.indexed
