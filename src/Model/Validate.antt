-- ===== src/Model/Validate.antt =====
-- Model.Validate of internal/model/validate.go: the problems of a model, in the order in which the
-- code reports them. A problem is its place and the format of its message.
pub mod Each
pub mod Blocks
pub mod Times
pub mod Flows
pub mod Slots
pub mod Techs
pub mod Registry
pub mod Limits
pub mod Arcs
pub mod Parts
pub mod References
use meme.Base.{List, [], ◌++◌, Float64}
use meme.Model.Types.{Model}
use meme.Model.Dates.{Dates}
use meme.Model.Checks.{Problem}
use meme.Model.Validate.Each.{each_entry}
use meme.Model.Validate.Times.{time_problems, horizon_problems}
use meme.Model.Validate.Techs.{tech_problems}
use meme.Model.Validate.Registry.{naming_problems, node_problems}
use meme.Model.Validate.Limits.{each_constraint, constraint_names, each_limit, trade_problems}
use meme.Model.Validate.Arcs.{arc_problems}

module _ (fl : Float64) (dates : Dates) where
  open fl use {F}

  -- `Validate`; no problem is nil
  unfoldable pub validate_model : Model F → List Problem
  validate_model m =
      time_problems fl dates m
      ++ (horizon_problems fl dates m
          ++ (naming_problems m
              ++ (each_entry (tech_problems fl m) m.technologies
                  ++ (each_entry (node_problems fl m) m.nodes
                      ++ (each_constraint m [] 0 m.constraints
                          ++ (each_entry (trade_problems fl m) m.trade
                              ++ (each_limit (constraint_names [] m.constraints) 0 m.emission_limits
                                  ++ each_entry (arc_problems fl m) m.transmission)))))))
