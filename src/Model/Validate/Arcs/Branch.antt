-- ===== src/Model/Validate/Arcs/Branch.antt =====
-- What a validated electrical arc is, by the parameters that it resolves to.
use meme.Base.{
  ◌≡◌, refl, ◌⊎◌, inl, inr, Bool, true, false, not, ◌&&◌, ◌||◌, Option, none, some, List, [], ◌∷◌,
  ◌++◌, Float64, ℤ, pos, ltb_ℤ, Text, codes, str_eq, lookup, has_key, get_or_else,
}
use meme.Model.Types.{NodeElectrical, TransmissionElectrical, Transmission, Model}
use meme.Model.Enums.{line, transformer, valid_kind}
use meme.Model.Electrical.{Maths, per_length, circuits, tap, impedance}
use meme.Model.Dates.{Dates}
use meme.Model.Checks.{report, given, not_positive, validate_capacity}
use meme.Model.Validate.{validate_model}
use meme.Model.Validate.Blocks.{validate_costs}
use meme.Model.Validate.Each.{
  Defined, has_key_iff, append-nil_left, append-nil_right, report-nil_iff, true_of_not,
}
use meme.Model.Validate.Arcs.{
  node_electrical, below_one, levels_differ, length_checks, literal_checks, impedance_checks,
  branch_checks, validate_electrical, arc_checks, energy_checks, arc_end_checks, arc_problems,
}
use meme.Model.Validate.Parts.{validate_model-IsSound}

-- All of the checks passed.
abbrev Passed : List (Bool × Text) → Type 0
Passed [] = Unit
Passed ((bad, message) ∷ checks) = (bad ≡ false) × Passed checks

no_dispatch_of :
    {A B : Type 0} (o : Option A) (p : Option B) (e : B)
    → (given o && given p) ≡ false
    → p ≡ some e
    → o ≡ none
no_dispatch_of none p e h q = refl
no_dispatch_of (some x) none e h q = cc
no_dispatch_of (some x) (some y) e h q = cc

one_value : {A : Type 0} (o : Option A) → not (given o) ≡ false → (x : A) × (o ≡ some x)
one_value none h = cc
one_value (some x) h = (x, refl)

one_of : (a b : Bool) → not (a || b) ≡ false → (a ≡ true) ⊎ (b ≡ true)
one_of true b h = inl refl
one_of false true h = inr refl
one_of false false h = cc

kind_of :
    (k : Text) → not (valid_kind k) ≡ false → (str_eq k line ≡ true) ⊎ (str_eq k transformer ≡ true)
unfolding valid_kind
kind_of k h = one_of (str_eq k line) (str_eq k transformer) h

circuits_of : (o : Option ℤ) → below_one o ≡ false → ltb_ℤ (get_or_else o (pos 1)) (pos 1) ≡ false
circuits_of none h = refl
circuits_of (some n) h = h

module _ (fl : Float64) where
  open fl use {F, zero, one, lt, le, eq, one_pos}

  -- An AC branch: its ends are two defined nodes, it is a line or a transformer, power flows both
  -- ways over it, and no fixed dispatch contradicts the power flow. It has one circuit or more, and a
  -- positive tap ratio. The impedance, where it is not given per length, has a positive reactance and
  -- no negative resistance; per length, the distance is given. A line joins nodes of one voltage, as
  -- far as they have one, and has the tap ratio 1.
  pub record IsBranch (m : Model F) (maths : Maths fl) (l : Transmission F)
      (e : TransmissionElectrical F) : Type 0 where
    pub from : Defined l.from m.nodes
    pub to : Defined l.to m.nodes
    pub kind : (str_eq e.kind line ≡ true) ⊎ (str_eq e.kind transformer ≡ true)
    pub both_ways : l.bidirectional ≡ true
    pub no_dispatch : l.dispatch ≡ none
    pub circuit : ltb_ℤ (circuits (some e)) (pos 1) ≡ false
    pub tap_ratio : le (tap fl (some e)) zero ≡ false
    pub resistance : per_length e ≡ false → lt (impedance fl maths e l.distance).0 zero ≡ false
    pub reactance : per_length e ≡ false → le (impedance fl maths e l.distance).1 zero ≡ false
    pub distance : per_length e ≡ true → (d : F) × (l.distance ≡ some d)
    pub level :
        (a b : NodeElectrical F)
        → str_eq e.kind line ≡ true
        → node_electrical m.nodes l.from ≡ some a
        → node_electrical m.nodes l.to ≡ some b
        → eq a.v_nom b.v_nom ≡ true
    pub line_tap : str_eq e.kind line ≡ true → tap fl (some e) ≡ one

  tap_of : (o : Option F) → not_positive fl o ≡ false → le (get_or_else o one) zero ≡ false
  tap_of none h = one_pos
  tap_of (some t) h = h

  line_tap_of :
      (o : Option F) (k : Bool) → (given o && k) ≡ false → k ≡ true → get_or_else o one ≡ one
  line_tap_of none k h e = refl
  line_tap_of (some t) k h e = cc

  level_of :
      (k : Bool) (o p : Option (NodeElectrical F)) (a b : NodeElectrical F)
      → (k && levels_differ fl o p) ≡ false
      → k ≡ true
      → o ≡ some a
      → p ≡ some b
      → eq a.v_nom b.v_nom ≡ true
  level_of k none p a b h t e f = cc
  level_of k (some x) none a b h t e f = cc
  level_of k (some x) (some y) a b h t e f =
      let ex : x ≡ a = cc in
      let ey : y ≡ b = cc in rw (← ex, ← ey) (true_of_not (eq x.v_nom y.v_nom) (rw t at h))

  literal_impedance :
      (maths : Maths fl) (l : Transmission F) (e : TransmissionElectrical F)
      → Passed (impedance_checks fl l e)
      → per_length e ≡ false
      → (lt (impedance fl maths e l.distance).0 zero ≡ false)
        × (le (impedance fl maths e l.distance).1 zero ≡ false)
  unfolding impedance_checks impedance
  literal_impedance maths l e h p =
      let (x, (r, _)) : Passed (literal_checks fl e) = rw p at h in rw p (r, x)

  distance_of :
      (l : Transmission F) (e : TransmissionElectrical F)
      → Passed (impedance_checks fl l e)
      → per_length e ≡ true
      → (d : F) × (l.distance ≡ some d)
  unfolding impedance_checks
  distance_of l e h p =
      let (_, (d, _)) : Passed (length_checks fl l e) = rw p at h in one_value l.distance d

  module _ (m : Model F) (maths : Maths fl) (id : Text) (l : Transmission F)
      (e : TransmissionElectrical F) (has : l.electrical ≡ some e) where
    arc-IsBranch : arc_problems fl m id l ≡ [] → IsBranch m maths l e
    unfolding arc_problems arc_checks arc_end_checks validate_electrical branch_checks circuits tap
        valid_kind
    arc-IsBranch h =
        let place = codes "transmission " ++ id in
        let (a1, (a2, (a3, _))) =
          (report-nil_iff place (arc_checks fl m l)).0 (append-nil_left _ _ h) in
        let h1 = append-nil_right (report place (arc_checks fl m l)) _ h in
        let h2 = append-nil_right (report place (energy_checks fl m l l.energy_consumption)) _ h1 in
        let h3 = append-nil_right (validate_capacity fl place l.capacity) _ h2 in
        let h4 = append-nil_right (validate_costs fl place l.costs) _ h3 in
        let electrical : validate_electrical fl place m.nodes l (some e) ≡ [] = rw has at (
          append-nil_left (validate_electrical fl place m.nodes l l.electrical)
            (report place (arc_end_checks fl m l)) h4) in
        let ends =
          append-nil_right (validate_electrical fl place m.nodes l l.electrical)
            (report place (arc_end_checks fl m l)) h4 in
        let (_, (c2, _)) = (report-nil_iff place (arc_end_checks fl m l)).0 ends in
        let (k, _) = (report-nil_iff place _).0 (append-nil_left _ _ electrical) in
        let e1 =
          append-nil_right
            (report place (
              (not (valid_kind e.kind), codes "electrical.kind %q is invalid (line or transformer)")
              ∷ []))
            (report place (impedance_checks fl l e) ++ report place (branch_checks fl m.nodes l e))
            electrical in
        let imp = (report-nil_iff place (impedance_checks fl l e)).0 (append-nil_left _ _ e1) in
        let (_, (_, (_, (_, (_, (b6, (b7, (b8, (b9, (b10, _)))))))))) =
          (report-nil_iff place (branch_checks fl m.nodes l e)).0
            (append-nil_right (report place (impedance_checks fl l e)) _ e1) in
        record {
          from = (has_key_iff l.from m.nodes).0 (true_of_not (has_key l.from m.nodes) a2);
          to = (has_key_iff l.to m.nodes).0 (true_of_not (has_key l.to m.nodes) a3);
          kind = kind_of e.kind k;
          both_ways = true_of_not l.bidirectional b9;
          no_dispatch = no_dispatch_of l.dispatch l.electrical e c2 has;
          circuit = circuits_of e.num_parallel b6;
          tap_ratio = tap_of e.tap_ratio b8;
          resistance = λ p. (literal_impedance maths l e imp p).0;
          reactance = λ p. (literal_impedance maths l e imp p).1;
          distance = distance_of l e imp;
          level = λ a b t o p. level_of (str_eq e.kind line) _ _ a b b10 t o p;
          line_tap = line_tap_of e.tap_ratio (str_eq e.kind line) b7;
        }

  -- In a model that passes validation each electrical arc is such a branch.
  pub validate_model-IsBranch :
      (dates : Dates) (m : Model F) (maths : Maths fl) (id : Text) (l : Transmission F)
      (e : TransmissionElectrical F)
      → validate_model fl dates m ≡ []
      → lookup id m.transmission ≡ some l
      → l.electrical ≡ some e
      → IsBranch m maths l e
  validate_model-IsBranch dates m maths id l e h found has =
      arc-IsBranch m maths id l e has ((validate_model-IsSound fl dates m h).arcs id l found)
