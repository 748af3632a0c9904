-- ===== src/Target/Pypsa/Costs.antt =====
-- The costs of the PyPSA emitter: internal/target/pypsa/buses.go, `pypsaCapitalCost` of emitter.go,
-- `transmissionCapitalCost` of powerflow.go, and `EffectiveRate` of internal/model/model.go.
use meme.Base.{Option, none, some, if◌then◌else◌, Float64, Text, codes, str_eq, lookup, get_or_else}
use meme.Model.Types.{CostClass, Technology, Transmission, Model}
use meme.Emit.Capex.{Powers, annualized_capex}
use meme.Target.Gates.Warnings.{primary_cost_class}

module _ {F : Type 0} where
  -- `EffectiveRate`
  unfoldable pub effective_rate : Model F → Technology F → Option F
  effective_rate m t = if_given m.discount_rate t.interest_rate
    where
      if_given : Option F → Option F → Option F
      if_given none rate = rate
      if_given (some r) rate = some r

module _ (fl : Float64) (ps : Powers fl) where
  open fl use {F, zero, lt, add, mul}

  -- An investment on the technology's own basis
  unfoldable pub on_basis : Model F → Technology F → F → F
  on_basis m t investment =
      if str_eq t.cost_basis (codes "annualized")
      then investment
      else annualized_capex fl ps investment (get_or_else (effective_rate m t) zero)
          (get_or_else t.lifetime zero)

  given_investment : Model F → Technology F → Option F → F
  given_investment m t none = zero
  given_investment m t (some i) = on_basis m t i

  class_investment : Model F → Technology F → Option (CostClass F) → F
  unfolding given_investment
  class_investment m t none = zero
  class_investment m t (some c) = given_investment m t c.investment_per_capacity

  -- `annualizedInvestment`
  unfoldable pub annualized_investment : Model F → Technology F → Text → F
  unfolding class_investment
  annualized_investment m t class = class_investment m t (lookup class t.costs)

  add_given : F → Option F → F
  add_given cc none = cc
  add_given cc (some x) = add cc x

  add_fraction : F → Option F → Option F → F
  add_fraction cc (some fraction) (some investment) = add cc (mul fraction investment)
  add_fraction cc _ _ = cc

  add_fixed : F → Option (CostClass F) → F
  unfolding add_given add_fraction
  add_fixed cc none = cc
  add_fixed cc (some c) =
      add_fraction (add_given cc c.fixed_om) c.fixed_om_fraction c.investment_per_capacity

  -- `pypsaCapitalCost`
  unfoldable pub pypsa_capital_cost : Model F → Technology F → F
  unfolding add_fixed
  pypsa_capital_cost m t =
      add_fixed (annualized_investment m t primary_cost_class) (lookup primary_cost_class t.costs)

  distance_part : F → Option F → Option F → F
  distance_part invest (some c) (some d) = add invest (mul c d)
  distance_part invest _ _ = invest

  -- `invest`
  arc_investment : CostClass F → Option F → F
  unfolding distance_part add_given
  arc_investment c distance =
      distance_part (add_given zero c.investment_per_capacity) c.investment_per_capacity_distance
        distance

  fraction_of : F → F → Option F → F
  fraction_of cost invest none = cost
  fraction_of cost invest (some f) = add cost (mul f invest)

  annuity_at : F → Option F → Option F → Option F
  annuity_at invest (some lifetime) (some rate) = some (annualized_capex fl ps invest rate lifetime)
  annuity_at invest _ _ = none

  -- The annualized investment; `none` where it cannot be annualized
  arc_annuity : Model F → Transmission F → F → Option F
  unfolding annuity_at
  arc_annuity m l invest =
      if str_eq l.cost_basis (codes "annualized")
      then some invest
      else annuity_at invest l.lifetime (global_or m.discount_rate)
    where
      global_or : Option F → Option F
      global_or none = l.interest_rate
      global_or (some r) = some r

  with_fixed : CostClass F → F → Option F → Option F
  unfolding fraction_of add_given
  with_fixed c invest none = none
  with_fixed c invest (some cost) =
      some (add_given (fraction_of cost invest c.fixed_om_fraction) c.fixed_om)

  class_cost : Model F → Transmission F → Option (CostClass F) → Option F
  unfolding arc_investment arc_annuity with_fixed add_given
  class_cost m l none = some zero
  class_cost m l (some c) =
      let invest = arc_investment c l.distance in
      if lt zero invest
      then with_fixed c invest (arc_annuity m l invest)
      else some (add_given zero c.fixed_om)

  -- `transmissionCapitalCost`; `none` is its false
  unfoldable pub transmission_capital_cost : Model F → Transmission F → Option F
  unfolding class_cost
  transmission_capital_cost m l = class_cost m l (lookup primary_cost_class l.costs)
