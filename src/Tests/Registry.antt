-- ===== src/Tests/Registry.antt =====
-- The target registry.
use meme.Base.{
  ◌≡◌, refl, ◌↔◌, true, false, some, none, List, [], ◌∷◌, Text, codes, In, split, trim_space,
  str_eq, has_key, insert,
}
use meme.Target.Registry.{
  Target, Registry, empty_registry, register, register_alias, resolve, known, parse_targets, Init,
  add, add_alias, run_inits,
}
use meme.Target.Registry.Inv.{IsRegistry, run_inits-IsRegistry}
use meme.Target.Registry.Request.{IsDistinct, Unknown, parse_targets_lem}

abbrev pypsa : Target
pypsa = record { name = codes "pypsa"; version = codes "0.35"; capabilities = []; variant = false }

abbrev calliope : Target
calliope = record {
  name = codes "calliope";
  version = codes "0.7";
  capabilities = [];
  variant = false;
}

abbrev inits : List Init
inits = add pypsa ∷ add calliope ∷ add_alias (codes "calliope-0.7") (codes "calliope") ∷ []

abbrev two_targets : Registry
two_targets = record {
  registry = (codes "pypsa", pypsa) ∷ (codes "calliope", calliope) ∷ [];
  aliases = (codes "calliope-0.7", codes "calliope") ∷ [];
}

run_inits-IsRegistry_example : IsRegistry two_targets
unfolding run_inits empty_registry register register_alias has_key insert str_eq
run_inits-IsRegistry_example = run_inits-IsRegistry inits two_targets refl

two_targets-IsRegistry : IsRegistry two_targets
unfolding run_inits empty_registry register register_alias has_key insert str_eq
two_targets-IsRegistry = run_inits-IsRegistry inits two_targets refl

parse_targets_lem_example :
    ((parse_targets two_targets (codes "pypsa, calliope-0.7,calliope") ≡ none)
      ↔ Unknown two_targets (split (codes "pypsa, calliope-0.7,calliope") 44))
    × ((out : List Text)
        → parse_targets two_targets (codes "pypsa, calliope-0.7,calliope") ≡ some out
        → IsDistinct out
          × ((t : Text)
              → In t out ↔ (
                  (part : Text) × In part (split (codes "pypsa, calliope-0.7,calliope") 44)
                  × (t ≡ resolve two_targets (trim_space part))
                  × (known two_targets t ≡ true))))
parse_targets_lem_example =
    parse_targets_lem two_targets (codes "pypsa, calliope-0.7,calliope") (unfold str_eq in refl)
