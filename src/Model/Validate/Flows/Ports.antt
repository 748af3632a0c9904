-- ===== src/Model/Validate/Flows/Ports.antt =====
-- What the checks of multi-port flows accept.
use meme.Base.{
  ℕ, zero, suc, ◌≡◌, refl, ap, ◌↔◌, ◌⊎◌, inl, inr, Bool, true, false, not, ◌&&◌, some, List, [],
  ◌∷◌, arith, All, In, get_elem?, Float64, Text, str_eq, Map, ltb, ◌==◌, Bool-cases, some_injective,
}
use meme.Model.Types.{Flow, Carrier}
use meme.Model.Enums.{flow_out}
use meme.Model.Checks.{report}
use meme.Model.Validate.Each.{Defined, has_key_iff, append-nil_iff, report-nil_iff}
use meme.Model.Validate.Flows.{
  is_input, count_inputs, count_references, flow_checks, each_flow, flow_problems,
}

direction_iff : (a b : Bool) → ((not a && not b) ≡ false) ↔ ((a ≡ true) ⊎ (b ≡ true))
direction_iff true b = (λ h. inl refl, λ h. refl)
direction_iff false true = (λ h. inr refl, λ h. refl)
direction_iff false false = (λ h. cc, λ h. elim h [ inl e ↦ cc | inr e ↦ cc ])

module _ {F : Type 0} where
  -- No two flows at different positions are references.
  abbrev pub OneReference : List (Flow F) → Type 0
  OneReference fs =
      (i j : ℕ) (f g : Flow F)
      → get_elem? fs i ≡ some f
      → get_elem? fs j ≡ some g
      → f.reference ≡ true
      → g.reference ≡ true
      → i ≡ j

  -- One of the flows is an input.
  abbrev pub HasInput : List (Flow F) → Type 0
  HasInput fs = (f : Flow F) × In f fs × (is_input f ≡ true)

  HasInput-of_count : (fs : List (Flow F)) → (count_inputs fs == 0) ≡ false → HasInput fs
  unfolding count_inputs
  HasInput-of_count [] h = cc
  HasInput-of_count (f ∷ fs) h = elim (Bool-cases (is_input f)) [
    | inl e ↦ (f, inl refl, e)
    | inr e ↦ let (g, i, p) = HasInput-of_count fs (ground arith) in (g, inr i, p)
  ]

  count_of_input :
      (fs : List (Flow F)) (f : Flow F)
      → In f fs
      → is_input f ≡ true
      → (count_inputs fs == 0) ≡ false
  unfolding count_inputs
  count_of_input [] f i p = absurd i
  count_of_input (g ∷ fs) f (inl e) p = rw (← e, p) (ground arith)
  count_of_input (g ∷ fs) f (inr i) p = ground (arith, count_of_input fs f i p)

  -- A count of none is that no flow is a reference.
  no_reference :
      (fs : List (Flow F)) (i : ℕ) (f : Flow F)
      → count_references fs ≡ 0
      → get_elem? fs i ≡ some f
      → f.reference ≡ false
  unfolding count_references
  no_reference [] i f h e = cc
  no_reference (g ∷ fs) zero f h e = rw (← some_injective e) (ground arith)
  no_reference (g ∷ fs) (suc i) f h e = no_reference fs i f (ground arith) e

  no_count :
      (fs : List (Flow F))
      → ((i : ℕ) (f : Flow F) → get_elem? fs i ≡ some f → f.reference ≡ false)
      → count_references fs ≡ 0
  unfolding count_references
  no_count [] h = refl
  no_count (g ∷ fs) h = ground (arith, h 0 g refl, no_count fs (λ i f e. h (suc i) f e))

  OneReference-of_count :
      (fs : List (Flow F)) → ltb 1 (count_references fs) ≡ false → OneReference fs
  unfolding count_references
  OneReference-of_count [] h i j f g e k p q = cc
  OneReference-of_count (x ∷ fs) h zero zero f g e k p q = refl
  OneReference-of_count (x ∷ fs) h zero (suc j) f g e k p q =
      let first : x.reference ≡ true = rw (some_injective e) p in
      let none_left : count_references fs ≡ 0 = ground arith in
      absurd (ground (arith, no_reference fs j g none_left k))
  OneReference-of_count (x ∷ fs) h (suc i) zero f g e k p q =
      let first : x.reference ≡ true = rw (some_injective k) q in
      let none_left : count_references fs ≡ 0 = ground arith in
      absurd (ground (arith, no_reference fs i f none_left e))
  OneReference-of_count (x ∷ fs) h (suc i) (suc j) f g e k p q =
      ap suc (OneReference-of_count fs (ground arith) i j f g e k p q)

  others_not :
      (x : Flow F) (fs : List (Flow F))
      → OneReference (x ∷ fs)
      → x.reference ≡ true
      → (i : ℕ) (f : Flow F) → get_elem? fs i ≡ some f
      → f.reference ≡ false
  others_not x fs one r i f e = elim (Bool-cases f.reference) [
    | inl t ↦ absurd (omega (arith, one 0 (suc i) x f refl e r t))
    | inr t ↦ t
  ]

  count_of_one : (fs : List (Flow F)) → OneReference fs → ltb 1 (count_references fs) ≡ false
  unfolding count_references
  count_of_one [] one = refl
  count_of_one (x ∷ fs) one = elim (Bool-cases x.reference) [
    | inl r ↦ rw (r, no_count fs (others_not x fs one r)) refl
    | inr r ↦ rw r (ground (arith, count_of_one fs (tail_one x fs one)))
  ]
    where
      tail_one : (x : Flow F) (gs : List (Flow F)) → OneReference (x ∷ gs) → OneReference gs
      tail_one x gs one i j f g e k p q = omega (arith, one (suc i) (suc j) f g e k p q)

module _ (fl : Float64) where
  open fl use {F, zero, le}

  -- What each port has to be: of a defined carrier, in or out; the reference is an input, and any
  -- other has a positive ratio.
  pub record IsPort (carriers : Map (Carrier F)) (f : Flow F) : Type 0 where
    pub carrier : Defined f.carrier carriers
    pub direction : (is_input f ≡ true) ⊎ (str_eq f.direction flow_out ≡ true)
    pub reference : f.reference ≡ true → is_input f ≡ true
    pub ratio : f.reference ≡ false → le f.ratio zero ≡ false

  IsPort-iff :
      (place : Text) (carriers : Map (Carrier F)) (f : Flow F)
      → (report place (flow_checks fl carriers f) ≡ []) ↔ IsPort carriers f
  unfolding flow_checks
  IsPort-iff place carriers f = (
    λ h.
        let (a, (b, (c, (d, _)))) = (report-nil_iff place _).0 h in
        record {
          carrier = (has_key_iff f.carrier carriers).0 (ground (arith, a));
          direction = (direction_iff (is_input f) (str_eq f.direction flow_out)).0 b;
          reference = λ r. ground (arith, c);
          ratio = λ r. ground (arith, d);
        },
    λ p. (report-nil_iff place _).1 (
      ground (arith, (has_key_iff f.carrier carriers).1 p.carrier),
      (
        (direction_iff (is_input f) (str_eq f.direction flow_out)).1 p.direction,
        (ground (arith, p.reference), (ground (arith, p.ratio), tt)),
      ),
    ),
  )

  ports_iff :
      (place : Text) (carriers : Map (Carrier F)) (fs : List (Flow F))
      → (each_flow fl place carriers fs ≡ []) ↔ All (IsPort carriers) fs
  unfolding each_flow
  ports_iff place carriers [] = (λ h. tt, λ h. refl)
  ports_iff place carriers (f ∷ fs) =
      let both =
        append-nil_iff (report place (flow_checks fl carriers f))
          (each_flow fl place carriers fs) in
      let here = IsPort-iff place carriers f in
      let later = ports_iff place carriers fs in
      (λ h. (here.0 (both.0 h).0, later.0 (both.0 h).1), λ (p, ps). both.1 (here.1 p, later.1 ps))

  -- The flows of a technology, where it has any, are accepted exactly if each is a port (of a defined
  -- carrier, in or out, a reference only as an input, and otherwise with a positive ratio), one of
  -- them is an input, and no two are references.
  pub flow_problems-nil_iff :
      (place : Text) (carriers : Map (Carrier F)) (f : Flow F) (fs : List (Flow F))
      → (flow_problems fl place carriers (f ∷ fs) ≡ [])
        ↔ (All (IsPort carriers) (f ∷ fs) × HasInput (f ∷ fs) × OneReference (f ∷ fs))
  unfolding flow_problems
  flow_problems-nil_iff place carriers f fs =
      let both = append-nil_iff (each_flow fl place carriers (f ∷ fs)) _ in
      let ports = ports_iff place carriers (f ∷ fs) in
      (
        λ h.
            let (a, (b, _)) = (report-nil_iff place _).0 (both.0 h).1 in
            (ports.0 (both.0 h).0, HasInput-of_count (f ∷ fs) a, OneReference-of_count (f ∷ fs) b),
        λ (p, (g, i, e), one). both.1 (
          ports.1 p,
          (report-nil_iff place _).1
              (count_of_input (f ∷ fs) g i e, (count_of_one (f ∷ fs) one, tt)),
        ),
      )
