-- ===== src/Target/Pypsa/Planning.antt =====
-- Investment planning in the PyPSA emitter (internal/target/pypsa/planning.go): the rows of retirable
-- technologies and of investment periods, and the names of the components that they make.
pub mod Names
pub mod Existing
use meme.Base.{
  Bool, true, false, not, ◌&&◌, ◌||◌, Option, none, some, List, [], ◌∷◌, ◌++◌, map, if◌then◌else◌,
  Float64, Text, codes, str_eq, has_suffix, itoa_ℤ, Map, lookup, insert, get_or_else,
}
use meme.Model.Types.{Capacity, Decommission, Technology, Model}
use meme.Model.Periods.{InvestmentPeriod}
use meme.Model.Checks.{effective_min, effective_max}
use meme.Target.Gates.Warnings.{primary_cost_class}
use meme.Emit.Capex.{Powers}
use meme.Target.Pypsa.Costs.{annualized_investment, pypsa_capital_cost}

-- A row of a component table
abbrev pub Row : Type 0
Row = Map Text

-- `row[k]`
unfoldable pub cell : Text → Row → Text
cell k row = get_or_else (lookup k row) []

-- `delete(row, k)`
unfoldable pub delete : Text → Row → Row
delete k [] = []
delete k ((j, v) ∷ row) = let rest = delete k row in if str_eq j k then rest else (j, v) ∷ rest

module _ {F : Type 0} where
  mode_of : Option (Decommission F) → Text
  mode_of none = codes "impossible"
  mode_of (some d) = if str_eq d.mode [] then codes "impossible" else d.mode

  -- `DecommissionMode`
  unfoldable pub decommission_mode : Option (Capacity F) → Text
  unfolding mode_of
  decommission_mode none = codes "impossible"
  decommission_mode (some c) = mode_of c.decommission

  abbrev pub is_continuous : Option (Capacity F) → Bool
  is_continuous c = str_eq (decommission_mode c) (codes "continuous")

  abbrev pub is_expandable : Option (Capacity F) → Bool
  is_expandable none = false
  is_expandable (some c) = c.expandable

  -- `isNewBuild`
  unfoldable pub is_new_build : Text → Technology F → Bool
  is_new_build name t =
      is_expandable t.capacity && (not (is_continuous t.capacity) || has_suffix name (codes "_new"))

  -- The name of a part that is built in a period
  abbrev pub part_name : Text → InvestmentPeriod F → Text
  part_name name p = name ++ b'-' ∷ itoa_ℤ p.year

  -- `retirementNames`
  unfoldable pub retirement_names : Text → Technology F → List Text
  retirement_names name t =
      if is_continuous t.capacity && is_expandable t.capacity
      then name ∷ (name ++ codes "_new") ∷ []
      else name ∷ []

  unfoldable pub names_of_part : Technology F → List (InvestmentPeriod F) → Text → List Text
  names_of_part t [] name = name ∷ []
  names_of_part t (p ∷ ps) name =
      if is_new_build name t then map (part_name name) (p ∷ ps) else name ∷ []

  unfoldable pub names_of_parts : Technology F → List (InvestmentPeriod F) → List Text → List Text
  names_of_parts t ps [] = []
  names_of_parts t ps (name ∷ names) = names_of_part t ps name ++ names_of_parts t ps names

  -- `emittedNames`
  unfoldable pub emitted_names : Text → Technology F → List (InvestmentPeriod F) → List Text
  emitted_names base t ps = names_of_parts t ps (retirement_names base t)

module _ (fl : Float64) (ps : Powers fl) where
  open fl use {F, zero, lt}
  open ps use {sub, format_float}

  abbrev with_lifetime : Option F → Row → Row
  with_lifetime none row = row
  with_lifetime (some life) row = insert (codes "lifetime") (format_float life) row

  -- The copy of a row for one period
  abbrev pub period_row : Row → InvestmentPeriod F → Row
  period_row row p = insert (codes "p_nom") (codes "0") (
      insert (codes "build_year") (itoa_ℤ p.year)
        (insert (codes "name") (part_name (cell (codes "name") row) p) row))

  unfoldable pub rows_of_part : Technology F → List (InvestmentPeriod F) → Row → List Row
  rows_of_part t periods row =
      let row' = with_lifetime t.lifetime row in
      if is_new_build (cell (codes "name") row') t then map (period_row row') periods else row' ∷ []

  unfoldable pub rows_of_parts : Technology F → List (InvestmentPeriod F) → List Row → List Row
  rows_of_parts t periods [] = []
  rows_of_parts t periods (row ∷ rows) = rows_of_part t periods row ++ rows_of_parts t periods rows

  -- `periodRows`
  unfoldable pub period_rows : List Row → Technology F → List (InvestmentPeriod F) → List Row
  period_rows rows t [] = rows
  period_rows rows t (p ∷ periods) = rows_of_parts t (p ∷ periods) rows

  -- `maxf`
  unfoldable pub maxf : F → F → F
  maxf a b = if lt b a then a else b

  abbrev with_module : Option F → Text → Row → Row
  with_module none column row = row
  with_module (some u) column row = if lt zero u then insert column (format_float u) row else row

  -- `setModule`
  unfoldable pub set_module : Row → Option (Capacity F) → Text → Row
  set_module row none column = row
  set_module row (some c) column = if c.expandable then with_module c.per_unit column row else row

  -- The new part's bounds, above what exists
  abbrev upper_bound : Capacity F → Option F → Text
  upper_bound c none = codes "inf"
  upper_bound c (some max) = format_float (maxf (sub max c.existing) zero)

  abbrev with_lower : Capacity F → Option F → Row → Row
  with_lower c none row = row
  with_lower c (some min) row =
      if lt c.existing min
      then insert (codes "p_nom_min") (format_float (sub min c.existing)) row
      else row

  -- The existing part, which may only shrink
  abbrev pub existing_row : Model F → Technology F → Capacity F → Row → Row
  existing_row m t c row =
      let fixed_om =
        sub (pypsa_capital_cost fl ps m t) (annualized_investment fl ps m t primary_cost_class) in
      insert (codes "capital_cost") (format_float fixed_om) (
        delete (codes "p_nom_mod") (
          delete (codes "p_nom_min") (
            insert (codes "p_nom_max") (format_float c.existing)
              (insert (codes "p_nom_extendable") (codes "True") row))))

  -- The part that is built anew, from the row of the existing one
  abbrev pub fresh_row : Model F → Technology F → Capacity F → Row → Row
  fresh_row m t c row =
      set_module
        (insert (codes "capital_cost") (format_float (pypsa_capital_cost fl ps m t)) (
          with_lower c (effective_min fl (some c)) (
            delete (codes "p_nom_min") (
              insert (codes "p_nom_max") (upper_bound c (effective_max fl (some c))) (
                insert (codes "p_nom_extendable") (codes "True") (
                  insert (codes "p_nom") (codes "0")
                    (insert (codes "name") (cell (codes "name") row ++ codes "_new") row)))))))
        (some c) (codes "p_nom_mod")

  retired : Model F → Technology F → Capacity F → Row → List Row
  retired m t c row =
      let existing = existing_row m t c row in
      if c.expandable then existing ∷ fresh_row m t c existing ∷ [] else existing ∷ []

  rows_of_capacity : Model F → Technology F → Option (Capacity F) → Row → List Row
  unfolding retired
  rows_of_capacity m t none row = row ∷ []
  rows_of_capacity m t (some c) row = if is_continuous (some c) then retired m t c row else row ∷ []

  -- `retirementRows`
  unfoldable pub retirement_rows : Model F → Technology F → Row → List Row
  unfolding rows_of_capacity
  retirement_rows m t row = rows_of_capacity m t t.capacity row
