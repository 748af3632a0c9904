-- ===== src/Model/Run/Modes.antt =====
-- The run modes of internal/model/experiment.go, the defaults that an experiment leaves out, and
-- `OptionWarnings`. A warning is what it is about and the format of its message.
use meme.Base.{
  Bool, true, not, ◌&&◌, ◌||◌, Option, none, some, List, [], ◌∷◌, ◌++◌, if◌then◌else◌, Text, codes,
  str_eq, sort_strings, get_or_else,
}
use meme.Model.Enums.{transport}
use meme.Model.Run.{NetworkOptions, Experiment}
use meme.Model.Checks.{given}

abbrev pub plan_mode : Text
plan_mode = codes "plan"

abbrev pub power_flow_mode : Text
power_flow_mode = codes "power_flow"

-- `Mode.Valid`
unfoldable pub valid_mode : Text → Bool
valid_mode m =
    str_eq m []
    || (str_eq m plan_mode
        || (str_eq m (codes "operate")
            || (str_eq m (codes "alternatives")
                || (str_eq m (codes "pareto")
                    || (str_eq m (codes "monte_carlo")
                        || (str_eq m (codes "stochastic") || str_eq m power_flow_mode))))))

-- The keys of `legacyOptionNamespaces`
unfoldable pub legacy_option : Text → Bool
legacy_option key =
    str_eq key (codes "operate")
    || (str_eq key (codes "spores")
        || (str_eq key (codes "mga")
            || (str_eq key (codes "pareto") || str_eq key (codes "monte_carlo"))))

-- The loop over the sorted option keys
unfoldable pub legacy_warnings : List Text → List (Text × Text)
unfolding legacy_option
legacy_warnings [] = []
legacy_warnings (key ∷ keys) =
    let rest = legacy_warnings keys in
    if legacy_option key
    then (
      key,
      codes
          "experiment.solver.options.%s is deprecated; use %s (first-class fields win when both are set)",
    )
      ∷ rest
    else rest

-- One row of `blocks`: the block is set, and its mode is another.
unfoldable pub block_warning : Text → Bool → Text → List (Text × Text)
block_warning mode set block =
    if set && not (str_eq mode block)
    then (
      block,
      codes "experiment.%s is set but mode is %q; the block only takes effect in mode %q",
    )
      ∷ []
    else []

module _ {F : Type 0} where
  network_model : Option (NetworkOptions F) → Text
  network_model none = transport
  network_model (some nw) = if str_eq nw.model [] then transport else nw.model

  -- `EffectiveNetworkModel`
  unfoldable pub effective_network : Experiment F → Text
  unfolding network_model
  effective_network e = network_model e.network

  -- `EffectiveMode`
  unfoldable pub effective_mode : Experiment F → Text
  effective_mode e = if str_eq e.mode [] then plan_mode else e.mode

  -- `CustomMathEnabled`
  unfoldable pub custom_math_enabled : Experiment F → Bool
  custom_math_enabled e = get_or_else e.custom_math true

  -- `OptionWarnings`
  unfoldable pub option_warnings : Experiment F → List (Text × Text)
  unfolding legacy_warnings block_warning
  option_warnings e =
      let mode = effective_mode e in
      legacy_warnings (sort_strings e.solver.option_keys)
      ++ (block_warning mode (given e.operate) (codes "operate")
          ++ (block_warning mode (given e.alternatives) (codes "alternatives")
              ++ (block_warning mode (given e.pareto) (codes "pareto")
                  ++ (block_warning mode (given e.monte_carlo) (codes "monte_carlo")
                      ++ block_warning mode (given e.power_flow) power_flow_mode))))
