-- ===== src/Model/Validate/Registry.antt =====
-- The checks of identifiers, of the series registry and of nodes in Model.Validate.
use meme.Base.{
  Bool, true, false, not, ◌&&◌, Option, none, some, List, [], ◌∷◌, ◌++◌, if◌then◌else◌, Float64,
  Text, codes, str_eq, Map, has_key, sorted_keys,
}
use meme.Model.Types.{Value, NodeElectrical, Node, TimeSeries, Model}
use meme.Model.Values.{is_series, series_id}
use meme.Model.Ids.{valid_id, valid_series_id}
use meme.Model.Checks.{Problem, report, negative}
use meme.Model.Validate.Each.{each, each_entry}
use meme.Model.Validate.Times.{has_series}
use meme.Model.Validate.Techs.{no_element}

-- `checkIDs`
unfoldable pub id_problems : Text → List Text → List Problem
id_problems section =
    each λ k. report section ((not (valid_id k), codes "id %q is invalid (allowed: %s)") ∷ [])

module _ {F : Type 0} where
  -- The switch on the source of a series
  unfoldable pub source_checks : TimeSeries F → List (Bool × Text)
  source_checks ts =
      if str_eq ts.source (codes "inline")
      then (no_element ts.values, codes "source \"inline\" needs values") ∷ []
      else if str_eq ts.source (codes "file")
      then (str_eq ts.path [], codes "source \"file\" needs a path") ∷ []
      else (true, codes "source %q is invalid (inline or file)") ∷ []

  unfoldable pub registry_problems : Map (TimeSeries F) → List Problem
  unfolding source_checks
  registry_problems series =
      each_entry
        (λ k ts.
          report (codes "timeseries")
            ((not (valid_series_id k), codes "id %q is invalid (allowed: %s)") ∷ source_checks ts))
        series

  -- From the identifiers to the series of the weights
  unfoldable pub naming_problems : Model F → List Problem
  unfolding id_problems registry_problems
  naming_problems m =
      id_problems (codes "carriers") (sorted_keys m.carriers)
      ++ (id_problems (codes "nodes") (sorted_keys m.nodes)
          ++ (id_problems (codes "technologies") (sorted_keys m.technologies)
              ++ (id_problems (codes "transmission") (sorted_keys m.transmission)
                  ++ (id_problems (codes "trade") (sorted_keys m.trade)
                      ++ (registry_problems m.timeseries
                          ++ report (codes "model") (
                              (
                                not (has_series m.timeseries m.time.weights),
                                codes "time.weights series %q not defined",
                              )
                              ∷ []))))))

module _ (fl : Float64) where
  open fl use {F, zero, lt, le}

  -- `n.Electrical != nil && n.Electrical.VNom <= 0`
  abbrev pub level_not_positive : Option (NodeElectrical F) → Bool
  level_not_positive none = false
  level_not_positive (some e) = le e.v_nom zero

  -- `n.Electrical.Shunt != nil && n.Electrical.Shunt.G < 0`
  abbrev pub shunt_negative : Option (NodeElectrical F) → Bool
  shunt_negative none = false
  shunt_negative (some e) = elim e.shunt [ none ↦ false | some s ↦ lt s.g zero ]

  -- The checks of a climate column
  unfoldable pub climate_problems : Text → Map (TimeSeries F) → Text → Value F → List Problem
  climate_problems place series col v = report place (
      (not (valid_id col), codes "climate column %q is invalid (allowed: %s)")
      ∷ (
        is_series (some v) && not (has_key (series_id v) series),
        codes "climate series %q (column %s) not defined",
      )
      ∷ [])

  -- The checks of one node
  unfoldable pub node_problems : Model F → Text → Node F → List Problem
  unfolding climate_problems
  node_problems m nid n =
      let place = codes "node " ++ nid in
      report place (
        (negative fl n.available_area, codes "available_area must not be negative")
        ∷ (level_not_positive n.electrical, codes "electrical.v_nom must be positive")
        ∷ (shunt_negative n.electrical, codes "electrical.shunt.g must not be negative")
        ∷ [])
      ++ each_entry (climate_problems place m.timeseries) n.climate
