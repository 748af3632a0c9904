-- ===== src/Model/Validate/Slots/Structure.antt =====
-- The values of a validated model can be read: no index runs out of range.
use meme.Base.{◌≡◌, refl, ◌≢◌, Option, none, some, [], ◌++◌, All, Float64, Text, codes, lookup}
use meme.Model.Types.{Value, NodeOverride, Technology, Model}
use meme.Model.Values.{Structural, out_of_range, structural_error, select}
use meme.Model.Values.Selection.{select-in_range}
use meme.Model.Dates.{Dates}
use meme.Model.Validate.{validate_model}
use meme.Model.Validate.Each.{
  each, append-nil_left, append-nil_right, each-nil_iff, All-map, each_entry-nil_iff,
}
use meme.Model.Validate.Blocks.{validate_tech_electrical}
use meme.Model.Validate.Slots.{
  override_place, tech_values, override_values, structural_problem, structure_problems,
  series_problems, precomputed_of,
}
use meme.Model.Validate.Techs.{
  placement_problems, slot_problems, range_problems, performance_problems, override_value_problems,
  override_problems, tech_problems,
}
use meme.Model.Validate.Parts.{validate_model-IsSound}

no_problem : (place : Text) (e : Option Structural) → structural_problem place e ≡ [] → e ≡ none
unfolding structural_problem
no_problem place none h = refl
no_problem place (some e) h = cc

module _ {F : Type 0} where
  -- Reading the value by a dimension and a key does not run out of range.
  abbrev pub IsReadable : Option (Value F) → Type 0
  IsReadable v = (dim key : Text) → select v dim key ≢ out_of_range

  value-IsReadable :
      (place : Text) (v : Option (Value F)) → structure_problems place v ≡ [] → IsReadable v
  unfolding structure_problems
  value-IsReadable place v h dim key =
      select-in_range v dim key (no_problem place (structural_error v) h)

module _ (fl : Float64) where
  open fl use {F}

  override-IsReadable :
      (place : Text) (m : Model F) (t : Technology F) (nid : Text) (ov : NodeOverride F)
      → override_problems fl place m t nid ov ≡ []
      → All IsReadable (override_values ov)
  unfolding override_problems override_value_problems
  override-IsReadable place m t nid ov h =
      let values = append-nil_left _ _ (append-nil_right _ _ (append-nil_right _ _ h)) in
      All-map (override_values ov) (λ v p. value-IsReadable place v (append-nil_left _ _ p))
        ((each-nil_iff (override_value_problems fl place m) (override_values ov)).0 values)

  -- In a model that passes validation no value of a technology or of its overrides that `techValues`
  -- and `overrideValues` name can run out of range when it is read by a dimension and a key.
  pub validate_model-IsReadable :
      (dates : Dates) (m : Model F) (id : Text) (t : Technology F)
      → validate_model fl dates m ≡ []
      → lookup id m.technologies ≡ some t
      → All IsReadable (tech_values t)
        × ((nid : Text) (ov : NodeOverride F)
            → lookup nid t.node_overrides ≡ some ov
            → All IsReadable (override_values ov))
  unfolding tech_problems
  validate_model-IsReadable dates m id t h e =
      let place = codes "tech " ++ id in
      let sound = (validate_model-IsSound fl dates m h).techs id t e in
      let h1 = append-nil_right (placement_problems fl place m t) _ sound in
      let h2 = append-nil_right (validate_tech_electrical fl place t.role t.electrical) _ h1 in
      let h3 = append-nil_right (slot_problems fl place m t) _ h2 in
      let h4 = append-nil_right (range_problems fl place t) _ h3 in
      let h5 = append-nil_right (each (structure_problems place) (tech_values t)) _ h4 in
      let h6 = append-nil_right (performance_problems fl place t.performance) _ h5 in
      (
        All-map (tech_values t) (λ v p. value-IsReadable place v p)
            ((each-nil_iff (structure_problems place) (tech_values t)).0 (append-nil_left _ _ h4)),
        λ nid ov f. override-IsReadable (override_place id nid) m t nid ov (
            (each_entry-nil_iff (λ nid ov. override_problems fl (override_place id nid) m t nid ov)
                t.node_overrides).0
              (append-nil_right (series_problems place m (precomputed_of t.performance)) _ h6) nid
              ov f),
      )
