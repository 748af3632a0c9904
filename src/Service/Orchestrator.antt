-- ===== src/Service/Orchestrator.antt =====
-- Sweep expansion of internal/service/orchestrator.go: dotted parameter paths and the runs of a job.
pub mod Paths
pub mod Panics
use meme.Base.{
  ℕ, ◌≡◌, refl, Bool, true, false, Option, none, some, List, [], ◌∷◌, ◌++◌, map, if◌then◌else◌,
  Float64, Text, codes, str_eq, split, Map, lookup, insert, length, leb, get_or_else,
}
use meme.Model.Types.{Value, CostClass, Capacity, Technology, Carrier, Model}
use meme.Model.Run.{Job}
use meme.Model.Run.Sweeps.{expand_sweep}

-- The errors of `applyPath`, by their message.
pub data PathError : Type 0 where
  path_too_short : PathError
  tech_not_found : Text → PathError
  unknown_capacity_field : Text → PathError
  costs_path_needs_class_and_field : PathError
  unknown_cost_field : Text → PathError
  unknown_tech_field : Text → PathError
  carrier_not_found : Text → PathError
  unknown_carrier_field : Text → PathError
  unsupported_path_root : Text → PathError
  clone_failed : PathError

-- What a call comes to: a value, an error, or a run-time panic (an index out of range).
pub data Outcome {ℓ} (A : Type ℓ) : Type ℓ where
  ok : A → Outcome A
  err : PathError → Outcome A
  panic : Outcome A

infixl 5 ◌>>=◌
abbrev pub ◌>>=◌ {ℓ κ} : {A : Type ℓ} {B : Type κ} → Outcome A → (A → Outcome B) → Outcome B
ok a >>= f = f a
err e >>= f = err e
panic >>= f = panic

-- A chain succeeds only if its first step does.
pub >>=-eq-ok :
    {A B : Type 0} (first : Outcome A) (next : A → Outcome B) {value : B}
    → (first >>= next) ≡ ok value
    → (mid : A) × (first ≡ ok mid) × (next mid ≡ ok value)
>>=-eq-ok panic next h = cc
>>=-eq-ok (err why) next h = cc
>>=-eq-ok (ok mid) next h = (mid, refl, h)

pub >>=-ok-panic {ℓ κ} :
    {A : Type ℓ} {B : Type κ} (m : Outcome A) (g : A → B)
    → (m >>= λ a. ok (g a)) ≡ panic
    → m ≡ panic
>>=-ok-panic (ok a) g h = cc
>>=-ok-panic (err e) g h = cc
>>=-ok-panic panic g h = refl

-- `splitPath`; the loop over the text appends to `out` and `cur`.
unfoldable pub split_path : Text → List Text
split_path p = split p b'.'

module _ (fl : Float64) where
  open fl use {F, zero}

  abbrev pub scalar_value : F → Value F
  scalar_value v = record { scalar = some v; ref = []; inline = []; indexed = none }

  -- `&model.Capacity{}`
  abbrev pub empty_capacity : Capacity F
  empty_capacity = record {
    existing = zero;
    expandable = false;
    min = none;
    max = none;
    unit = [];
    per_unit = none;
    units_min = none;
    units_max = none;
    systemwide_min = none;
    systemwide_max = none;
    decommission = none;
  }

  -- the zero CostClass, read off a map without the key
  abbrev pub empty_cost : CostClass F
  empty_cost = record {
    investment_per_capacity = none;
    investment_per_energy_capacity = none;
    investment_per_capacity_distance = none;
    fixed_om = none;
    fixed_om_fraction = none;
    variable_om = none;
    variable_om_quadratic = none;
    fuel_cost = none;
    purchase = none;
  }

  -- `switch seg[3]` of a capacity path
  unfoldable pub set_capacity : Text → F → Capacity F → Outcome (Capacity F)
  set_capacity field v c =
      if str_eq field (codes "max")
      then ok (record c { max = some v })
      else if str_eq field (codes "min")
      then ok (record c { min = some v })
      else if str_eq field (codes "existing")
      then ok (record c { existing = v })
      else err (unknown_capacity_field field)

  -- `switch seg[4]` of a cost path
  unfoldable pub set_cost : Text → F → CostClass F → Outcome (CostClass F)
  set_cost field v c =
      if str_eq field (codes "investment_per_capacity")
      then ok (record c { investment_per_capacity = some v })
      else if str_eq field (codes "variable_om")
      then ok (record c { variable_om = some (scalar_value v) })
      else err (unknown_cost_field field)

  -- The capacity case. `seg[3]` is read with no test of the length: a path of three segments panics.
  unfoldable pub apply_capacity : List Text → F → Technology F → Outcome (Technology F)
  unfolding set_capacity
  apply_capacity [] v t = panic
  apply_capacity (field ∷ more) v t = do
    c ← set_capacity field v (get_or_else t.capacity empty_capacity)
    ok (record t { capacity = some c })

  unfoldable pub apply_costs : List Text → F → Technology F → Outcome (Technology F)
  unfolding set_cost
  apply_costs [] v t = err costs_path_needs_class_and_field
  apply_costs (class ∷ []) v t = err costs_path_needs_class_and_field
  apply_costs (class ∷ field ∷ more) v t = do
    c ← set_cost field v (get_or_else (lookup class t.costs) empty_cost)
    ok (record t { costs = insert class c t.costs })

  -- `switch seg[2]` of a technology path; the list is what follows `seg[2]`.
  unfoldable pub apply_tech : Text → List Text → F → Technology F → Outcome (Technology F)
  unfolding apply_capacity apply_costs
  apply_tech field more v t =
      if str_eq field (codes "capacity")
      then apply_capacity more v t
      else if str_eq field (codes "efficiency")
      then ok (record t { efficiency = some (scalar_value v) })
      else if str_eq field (codes "costs")
      then apply_costs more v t
      else err (unknown_tech_field field)

  unfoldable pub apply_carrier : Text → F → Carrier F → Outcome (Carrier F)
  apply_carrier field v c =
      if str_eq field (codes "co2_intensity")
      then ok (record c { co2_intensity = some v })
      else err (unknown_carrier_field field)

  on_tech : Option (Technology F) → Text → Text → List Text → F → Model F → Outcome (Model F)
  on_tech none id field more v m = err (tech_not_found id)
  on_tech (some t) id field more v m = do
    t' ← apply_tech field more v t
    ok (record m { technologies = insert id t' m.technologies })

  on_carrier : Option (Carrier F) → Text → Text → F → Model F → Outcome (Model F)
  on_carrier none id field v m = err (carrier_not_found id)
  on_carrier (some c) id field v m = do
    c' ← apply_carrier field v c
    ok (record m { carriers = insert id c' m.carriers })

  -- `applyPath` behind `splitPath`
  unfoldable pub apply_segments : List Text → F → Model F → Outcome (Model F)
  unfolding on_tech on_carrier
  apply_segments (root ∷ id ∷ field ∷ more) v m =
      if str_eq root (codes "technologies")
      then on_tech (lookup id m.technologies) id field more v m
      else if str_eq root (codes "carriers")
      then on_carrier (lookup id m.carriers) id field v m
      else err (unsupported_path_root root)
  apply_segments _ v m = err path_too_short

  unfoldable pub apply_path : Model F → Text → F → Outcome (Model F)
  unfolding apply_segments split_path
  apply_path m path v = apply_segments (split_path path) v m

  -- The loop over one assignment. Go visits its entries in an unspecified order; the list is that
  -- order.
  unfoldable pub apply_assignment : Map F → Model F → Outcome (Model F)
  apply_assignment [] m = ok m
  apply_assignment ((path, v) ∷ rest) m = do m' ← apply_path m path v; apply_assignment rest m'

  -- A run: its job and its assignment.
  pub record ExpandedRun : Type 0 where
    pub job : Job F
    pub assignment : Map F

  clone_or_fail : Option (Job F) → Outcome (Job F)
  clone_or_fail none = err clone_failed
  clone_or_fail (some c) = ok c

  -- The loop of `ExpandRuns`. `clone_job` is `cloneJob`: the job written as JSON and read back.
  unfoldable pub expand_each :
      (Job F → Option (Job F)) → Job F → List (Map F) → Outcome (List ExpandedRun)
  unfolding clone_or_fail
  expand_each clone_job j [] = ok []
  expand_each clone_job j (a ∷ assigns) = do
    c ← clone_or_fail (clone_job j)
    m ← apply_assignment a c.model
    rest ← expand_each clone_job j assigns
    ok (record { job = record c { model = m }; assignment = a } ∷ rest)

  expand_assigns : (Job F → Option (Job F)) → Job F → List (Map F) → Outcome (List ExpandedRun)
  expand_assigns clone_job j [] = ok (record { job = j; assignment = [] } ∷ [])
  expand_assigns clone_job j (a ∷ assigns) = expand_each clone_job j (a ∷ assigns)

  -- `ExpandRuns`
  unfoldable pub expand_runs : (Job F → Option (Job F)) → Job F → Outcome (List ExpandedRun)
  unfolding expand_assigns
  expand_runs clone_job j = expand_assigns clone_job j (expand_sweep j.experiment.sweep)
