-- ===== src/Tests/Models.antt =====
-- The validation of models.
use meme.Base.{ℕ, ◌≡◌, ◌↔◌, refl, some, List, [], ◌∷◌, All, Text, codes, pos, lookup, str_eq}
use meme.Model.Types.{NodeOverride}
use meme.Model.Periods.{InvestmentPeriod}
use meme.Model.Validate.Flows.{flow_problems}
use meme.Model.Validate.Flows.Ports.{IsPort, HasInput, OneReference, flow_problems-nil_iff}
use meme.Model.Validate.References.{IsResolved, validate_model-IsResolved}
use meme.Model.Validate.Slots.{tech_values, override_values}
use meme.Model.Validate.Slots.Structure.{IsReadable, validate_model-IsReadable}
use meme.Model.Validate.Arcs.Branch.{IsBranch, validate_model-IsBranch}
use meme.Tests.Fixtures.{naturals}
use meme.Tests.Plant.{dates, maths, gas_in, power_out, plant, branch, arc, network, network-valid}

plant-found : lookup (codes "plant") network.technologies ≡ some plant
unfolding lookup str_eq
plant-found = refl

tie-found : lookup (codes "tie") network.transmission ≡ some arc
unfolding lookup str_eq
tie-found = refl

validate_model-IsResolved_example : IsResolved network plant
validate_model-IsResolved_example =
    validate_model-IsResolved naturals dates network (codes "plant") plant network-valid plant-found

validate_model-IsReadable_example :
    All IsReadable (tech_values plant)
    × ((nid : Text) (ov : NodeOverride ℕ)
        → lookup nid plant.node_overrides ≡ some ov
        → All IsReadable (override_values ov))
validate_model-IsReadable_example =
    validate_model-IsReadable naturals dates network (codes "plant") plant network-valid plant-found

validate_model-IsBranch_example : IsBranch naturals network maths arc branch
validate_model-IsBranch_example =
    validate_model-IsBranch naturals dates network maths (codes "tie") arc branch network-valid
      tie-found refl

flow_problems-nil_iff_example :
    (flow_problems naturals (codes "tech plant") network.carriers (gas_in ∷ power_out ∷ []) ≡ [])
    ↔ (All (IsPort naturals network.carriers) (gas_in ∷ power_out ∷ [])
        × HasInput (gas_in ∷ power_out ∷ [])
        × OneReference (gas_in ∷ power_out ∷ []))
flow_problems-nil_iff_example =
    flow_problems-nil_iff naturals (codes "tech plant") network.carriers gas_in (power_out ∷ [])

abbrev spans : List (InvestmentPeriod ℕ)
spans =
    record { name = codes "first"; year = pos 2030; years = 10; objective = 1 }
    ∷ record { name = codes "second"; year = pos 2040; years = 10; objective = 1 }
    ∷ []
