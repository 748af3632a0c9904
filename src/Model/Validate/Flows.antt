-- ===== src/Model/Validate/Flows.antt =====
-- The checks of a technology's multi-port flows in Model.Validate.
pub mod Ports
use meme.Base.{
  ℕ, zero, suc, ◌+◌, Bool, true, false, not, ◌&&◌, ◌||◌, List, [], ◌∷◌, ◌++◌, if◌then◌else◌, ltb,
  ◌==◌, Float64, Text, codes, str_eq, Map, has_key,
}
use meme.Model.Types.{Flow, Carrier}
use meme.Model.Enums.{flow_in, flow_out}
use meme.Model.Checks.{Problem, report}

module _ {F : Type 0} where
  -- `f.Direction == FlowIn`
  abbrev pub is_input : Flow F → Bool
  is_input f = str_eq f.direction flow_in

  -- `ins`, counted by the loop
  unfoldable pub count_inputs : List (Flow F) → ℕ
  count_inputs [] = 0
  count_inputs (f ∷ fs) = (if is_input f then 1 else 0) + count_inputs fs

  -- `refs`, counted by the loop
  unfoldable pub count_references : List (Flow F) → ℕ
  count_references [] = 0
  count_references (f ∷ fs) = (if f.reference then 1 else 0) + count_references fs

module _ (fl : Float64) where
  open fl use {F, zero, le}

  -- The checks of one flow, in order.
  unfoldable pub flow_checks : Map (Carrier F) → Flow F → List (Bool × Text)
  flow_checks carriers f =
      (not (has_key f.carrier carriers), codes "flow carrier %q not defined")
      ∷ (
        not (is_input f) && not (str_eq f.direction flow_out),
        codes "flow direction %q must be \"in\" or \"out\"",
      )
      ∷ (
        f.reference && not (is_input f),
        codes
            "flows[%d] (%s) marks an output as the reference; the reference must be an input flow",
      )
      ∷ (
        not f.reference && le f.ratio zero,
        codes "flows[%d] (%s %s) needs a positive ratio (the reference input flow may omit it)",
      )
      ∷ []

  -- The loop over the flows
  unfoldable pub each_flow : Text → Map (Carrier F) → List (Flow F) → List Problem
  unfolding flow_checks
  each_flow place carriers [] = []
  each_flow place carriers (f ∷ fs) =
      report place (flow_checks carriers f) ++ each_flow place carriers fs

  -- The checks of the flows, of which there is one at least.
  unfoldable pub flow_problems : Text → Map (Carrier F) → List (Flow F) → List Problem
  unfolding each_flow count_inputs count_references
  flow_problems place carriers [] = []
  flow_problems place carriers (f ∷ fs) =
      each_flow place carriers (f ∷ fs)
      ++ report place (
          (count_inputs (f ∷ fs) == 0, codes "flows need at least one input")
          ∷ (ltb 1 (count_references (f ∷ fs)), codes "at most one flow may be the reference input")
          ∷ [])
