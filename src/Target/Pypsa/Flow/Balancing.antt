-- ===== src/Target/Pypsa/Flow/Balancing.antt =====
-- The generators of an island in `validatePowerFlow` of internal/target/pypsa/powerflow.go.
use meme.Base.{
  Bool, false, ◌&&◌, ◌||◌, Option, none, some, List, [], ◌∷◌, if◌then◌else◌, Float64, negsuc, Text,
  str_eq, Map, lookup, sorted_keys,
}
use meme.Model.Types.{Capacity, Technology, Model}
use meme.Model.Ids.{contains_str}
use meme.Model.Overrides.{tech_at}
use meme.Target.Pypsa.Islands.{is_active}
use meme.Target.Pypsa.Network.{component_name, supplies}

module _ {F : Type 0} where
  abbrev pub active_supply : Text → Technology F → Bool
  active_supply carrier t = supplies carrier t && is_active t.active

module _ (fl : Float64) where
  open fl use {F, zero, one, lt, eq, of_int}

  -- What the loop over an island's generators finds
  pub record Balance : Type 0 where
    pub largest : Text
    pub largest_cap : F
    pub has_slack : Bool

  existing_of : Option (Capacity F) → F
  existing_of none = zero
  existing_of (some c) = c.existing

  unfoldable pub weigh_at : List Text → Text → Text → Technology F → Text → Balance → Balance
  unfolding existing_of
  weigh_at island slack id t n b =
      let name = component_name id t n in
      let c = existing_of (tech_at t n).capacity in
      let larger = lt b.largest_cap c in
      if contains_str island n
      then record {
        largest = if larger then name else b.largest;
        largest_cap = if larger then c else b.largest_cap;
        has_slack = str_eq name slack || b.has_slack;
      }
      else b

  unfoldable pub weigh_nodes :
      List Text → Text → Text → Technology F → List Text → Balance → Balance
  weigh_nodes island slack id t [] b = b
  weigh_nodes island slack id t (n ∷ ns) b =
      weigh_nodes island slack id t ns (weigh_at island slack id t n b)

  unfoldable pub weigh_tech :
      Text → List Text → Text → Text → Option (Technology F) → Balance → Balance
  weigh_tech carrier island slack id none b = b
  weigh_tech carrier island slack id (some t) b =
      let all = weigh_nodes island slack id t t.node b in if active_supply carrier t then all else b

  unfoldable pub weigh_techs :
      Text → List Text → Text → Map (Technology F) → List Text → Balance → Balance
  weigh_techs carrier island slack techs [] b = b
  weigh_techs carrier island slack techs (id ∷ ids) b =
      weigh_techs carrier island slack techs ids
        (weigh_tech carrier island slack id (lookup id techs) b)

  -- `largest`, `largestCap` and `hasSlack` behind the loop
  unfoldable pub balance_of : Text → List Text → Text → Model F → Balance
  balance_of carrier island slack m =
      weigh_techs carrier island slack m.technologies (sorted_keys m.technologies)
        (record { largest = []; largest_cap = of_int (negsuc 0); has_slack = false })
