-- ===== src/Tests/Parameters.antt =====
-- Values, overrides, periods and identifiers.
use meme.Base.{ℕ, ◌≡◌, refl, some, none, List, [], ◌∷◌, Text, codes, pos, str_eq}
use meme.Model.Types.{Value, IndexedParam, CostClass, Period, Model}
use meme.Model.Values.{select, find_dim, find_tuple}
use meme.Model.Values.Selection.{Entry, select-Entry}
use meme.Model.Periods.{InvestmentPeriod}
use meme.Model.Ids.{valid_id}
use meme.Model.Ids.Safety.{intern_key_injective}
use meme.Service.Orchestrator.{empty_cost}
use meme.Tests.Fixtures.{naturals, grid}

abbrev by_class : IndexedParam ℕ
by_class = record {
  values = 3 ∷ 4 ∷ [];
  index = (codes "monetary" ∷ []) ∷ (codes "emission" ∷ []) ∷ [];
  dims = codes "costs" ∷ [];
}

abbrev indexed_value : Value ℕ
indexed_value = record { scalar = none; ref = []; inline = []; indexed = some by_class }

select-Entry_example : Entry by_class (codes "costs") (codes "emission") 4
unfolding select find_dim find_tuple str_eq
select-Entry_example =
    select-Entry indexed_value by_class (codes "costs") (codes "emission") 4 refl refl

abbrev dear : CostClass ℕ
dear = record (empty_cost naturals) { purchase = some 9 }

abbrev period : Text → ℕ → Period ℕ
period name year = record {
  name = name;
  year = some (pos year);
  length_years = none;
  objective_weight = none;
}

abbrev planned : Model ℕ
planned = record grid { periods = period (codes "a") 2030 ∷ period (codes "b") 2035 ∷ [] }

abbrev spans : List (InvestmentPeriod ℕ)
spans =
    record { name = codes "a"; year = pos 2030; years = 5; objective = 1 }
    ∷ record { name = codes "b"; year = pos 2035; years = 5; objective = 1 }
    ∷ []

abbrev parts : List Text
parts = codes "tech" ∷ codes "wind" ∷ codes "max_pu" ∷ []

intern_key_injective_example : parts ≡ parts
unfolding valid_id
intern_key_injective_example = intern_key_injective parts parts refl refl refl
