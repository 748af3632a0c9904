-- ===== src/Model/Run/Sweeps.antt =====
-- Parameter sweeps: `ExpandSweep` and the run count of `Experiment.Validate` (experiment.go).
-- The loops over the axes and the values append to `next`.
pub mod Product
pub mod Count
use meme.Base.{
  ℕ, zero, suc, ◌+◌, ◌-◌, ◌*◌, ◌/◌, ◌^◌, ◌≤◌, ◌<◌, ◌≡◌, refl, sym, ap, ◌∙◌, Bool, true, false, not,
  ◌&&◌, all, Option, none, some, List, [], ◌∷◌, ◌++◌, append_assoc, append-nil, arith,
  if◌then◌else◌, ltb, leb, length, length-append, All, Text, Map, insert, lookup,
}
use meme.Model.Run.{SweepAxis}

-- math.MaxInt, and the cap on a sweep
abbrev pub max_int : ℕ
max_int = 2 ^ 63 - 1

abbrev pub max_sweep_runs : ℕ
max_sweep_runs = 1000

module _ {F : Type 0} where
  -- the innermost loop: one combination for each value of the axis
  pub extend : Text → Map F → List F → List (Map F)
  extend param base [] = []
  extend param base (v ∷ vs) = insert param v base ∷ extend param base vs

  -- one axis over all combinations so far
  pub extend_all : SweepAxis F → List (Map F) → List (Map F)
  unfolding extend
  extend_all axis [] = []
  extend_all axis (base ∷ combos) = extend axis.parameter base axis.values ++ extend_all axis combos

  pub combine : List (SweepAxis F) → List (Map F) → List (Map F)
  unfolding extend_all
  combine [] combos = combos
  combine (axis ∷ axes) combos = combine axes (extend_all axis combos)

  -- `ExpandSweep`; no assignment for an empty sweep
  unfoldable pub expand_sweep : List (SweepAxis F) → List (Map F)
  unfolding combine
  expand_sweep [] = []
  expand_sweep (axis ∷ axes) = combine (axis ∷ axes) ([] ∷ [])

  -- The counting loop of `Validate`: the number of runs, and whether it passed math.MaxInt. An axis
  -- with no values is an error of its own and is passed over.
  unfoldable pub count_runs : List (SweepAxis F) → ℕ → Bool → ℕ × Bool
  count_runs [] runs overflowed = (runs, overflowed)
  count_runs (axis ∷ axes) runs overflowed =
      let n = length axis.values in
      let skip = count_runs axes runs overflowed in
      let over = count_runs axes runs true in
      let next = count_runs axes (runs * n) overflowed in
      if leb n 0 then skip else if ltb (max_int / n) runs then over else next

  -- Whether `Validate` accepts the sweep: every axis has a parameter path and values, and the runs
  -- can be counted and are at most the cap.
  unfoldable pub axis_valid : SweepAxis F → Bool
  axis_valid axis = leb 1 (length axis.parameter) && leb 1 (length axis.values)

  unfoldable pub sweep_valid : List (SweepAxis F) → Bool
  unfolding count_runs axis_valid
  sweep_valid axes =
      let (runs, overflowed) = count_runs axes 1 false in
      all axis_valid axes && (not overflowed && leb runs max_sweep_runs)
