-- ===== src/Model/Intern/Pass.antt =====
-- The rules for the passes of internal/model/intern.go: what a step leaves alone in the registry and
-- what it makes of its value (Sound), and when it changes nothing (Keeps).
use meme.Base.{
  ◌≡◌, refl, ap, ◌∙◌, ◌⊎◌, inl, inr, true, false, Option, none, some, List, [], ◌∷◌, ◌++◌, arith,
  Text, codes, str_eq, str_eq_iff, has_prefix, any, Map, lookup, insert, has_key, has_key-insert,
  lookup-insert, Bool-cases,
}
use meme.Model.Types.{Value, TimeSeries}
use meme.Model.Values.{is_series, is_inline, series_id}
use meme.Model.Ids.{intern_key}
use meme.Model.Ids.Safety.{prefixed}
use meme.Model.Intern.{Interning, Pass, ◌>>=◌, keep_as, intern, intern_value, inline_series}

-- An id that the pass may write
abbrev pub Reserved : Text → Type 0
Reserved id = has_prefix id (codes "_inline:") ≡ true

pub key-Reserved :
    (base : List Text) (p : Text) (ps : List Text) → Reserved (intern_key (base ++ p ∷ ps))
key-Reserved [] p ps = prefixed p ps
key-Reserved (b ∷ bs) p ps = prefixed b (bs ++ p ∷ ps)

module _ {F : Type 0} where
  -- A slot that the emitters may read: no array of its own that they would have to read
  abbrev pub Plain : Option (Value F) → Type 0
  Plain v = (is_series v ≡ true) ⊎ (is_inline v ≡ false)

  -- Each reserved entry is referenced.
  abbrev pub Claimed : Interning F → Type 0
  Claimed s =
      (id : Text) → has_key id s.series ≡ true → Reserved id → any (str_eq id) s.referenced ≡ true

  -- The entries outside the reserved names stay.
  abbrev pub SameOutside : Map (TimeSeries F) → Map (TimeSeries F) → Type 0
  SameOutside old new =
      (id : Text) → has_prefix id (codes "_inline:") ≡ false → lookup id new ≡ lookup id old

  abbrev pub Frame : Interning F → Interning F → Type 0
  Frame s s' = SameOutside s.series s'.series × (Claimed s → Claimed s')

  -- A step that makes `P` of its value and keeps the frame
  pub record Sound {ℓ} {A : Type 0} (a : Pass F A) (P : A → Type ℓ) : Type ℓ where
    pub sound_at : (s : Interning F) → P (a s).0 × Frame s (a s).1

  -- A step that gives `x` back and changes no entry
  pub record Keeps {A : Type 0} (a : Pass F A) (x : A) : Type 0 where
    pub keeps_at : (s : Interning F) → ((a s).0 ≡ x) × ((a s).1.series ≡ s.series)

  pub pass_done {ℓ} : {A : Type 0} {P : A → Type ℓ} (x : A) → P x → Sound (keep_as x) P
  unfolding keep_as
  pass_done x p = record { sound_at = λ s. (p, (λ id h. refl, λ c. c)) }

  pub then-Sound {ℓ κ} :
      {A B : Type 0} {P : A → Type ℓ} {Q : B → Type κ} {a : Pass F A} {f : A → Pass F B}
      → Sound a P
      → ((x : A) → P x → Sound (f x) Q)
      → Sound (a >>= f) Q
  unfolding ◌>>=◌
  then-Sound {a = a} {f = f} ha hf = record {
    sound_at = λ s.
        let (p, (same, claim)) = ha.sound_at s in
        let (q, (same', claim')) = (hf (a s).0 p).sound_at (a s).1 in
        (q, (λ id h. same' id h ∙ same id h, λ c. claim' (claim c)));
  }

  pub kept : {A : Type 0} (x : A) → Keeps (keep_as x) x
  unfolding keep_as
  kept x = record { keeps_at = λ s. (refl, refl) }

  pub then-Keeps :
      {A B : Type 0} {a : Pass F A} {x : A} {y : B} (f : A → Pass F B)
      → Keeps a x
      → Keeps (f x) y
      → Keeps (a >>= f) y
  unfolding ◌>>=◌
  then-Keeps {a = a} {x = x} f ha hf = record {
    keeps_at = λ s.
        let (e, r) = ha.keeps_at s in
        let (e', r') = hf.keeps_at (a s).1 in
        (ap (λ z. (f z (a s).1).0) e ∙ e', ap (λ z. (f z (a s).1).1.series) e ∙ r' ∙ r);
  }

  insert_outside :
      (id : Text) (x : TimeSeries F) (m : Map (TimeSeries F))
      → Reserved id
      → SameOutside m (insert id x m)
  insert_outside id x m r j h = ground (arith, lookup-insert id j x m, str_eq_iff id j)

  insert-Claimed :
      (id : Text) (x : TimeSeries F) (s : Interning F)
      → Claimed s
      → Claimed (record { series = insert id x s.series; referenced = id ∷ s.referenced })
  insert-Claimed id x s c j k r =
      ground (arith, has_key-insert id j x s.series, c j, str_eq_iff id j, str_eq_iff j id)

  mark-Claimed :
      (id : Text) (s : Interning F)
      → Claimed s
      → Claimed (record s { referenced = id ∷ s.referenced })
  mark-Claimed id s c j k r = ground (arith, c j)

  value-Sound :
      (id : Text) (v : Value F)
      → Reserved id
      → (s : Interning F) → Plain (some (intern_value id v s).0) × Frame s (intern_value id v s).1
  unfolding intern_value is_series is_inline
  value-Sound id v r s = elim (Bool-cases (is_series (some v))) [
    | inl h ↦ rw h ((inl h, (λ j h. refl, mark-Claimed (series_id v) s)))
    | inr h ↦ elim (Bool-cases (is_inline (some v))) [
      | inl i ↦
          rw (h, i)
            (
              inr refl,
              (
                insert_outside id (inline_series v.inline) s.series r,
                insert-Claimed id (inline_series v.inline) s,
              ),
            )
      | inr i ↦ rw (h, i) (inr i, (λ j h. refl, λ c. c))
    ]
  ]

  value_keeps :
      (id : Text) (v : Value F)
      → Plain (some v)
      → (s : Interning F)
      → ((intern_value id v s).0 ≡ v) × ((intern_value id v s).1.series ≡ s.series)
  unfolding intern_value
  value_keeps id v (inl h) s = rw h (refl, refl)
  value_keeps id v (inr h) s = elim (Bool-cases (is_series (some v))) [
    | inl i ↦ rw i (refl, refl)
    | inr i ↦ rw (i, h) (refl, refl)
  ]

  pub intern_value-Sound :
      (id : Text) (v : Value F) → Reserved id → Sound (intern_value id v) (λ w. Plain (some w))
  intern_value-Sound id v r = record { sound_at = value-Sound id v r }

  pub intern_value-Keeps : (id : Text) (v : Value F) → Plain (some v) → Keeps (intern_value id v) v
  intern_value-Keeps id v p = record { keeps_at = value_keeps id v p }

  -- A slot behind `intern` is plain.
  pub intern-Sound : (id : Text) (v : Option (Value F)) → Reserved id → Sound (intern id v) Plain
  unfolding intern is_inline
  intern-Sound id none r = pass_done none (inr refl)
  intern-Sound id (some v) r = then-Sound (intern_value-Sound id v r) (λ w p. pass_done (some w) p)

  -- A plain slot stays as it is.
  pub intern-Keeps : (id : Text) (v : Option (Value F)) → Plain v → Keeps (intern id v) v
  unfolding intern
  intern-Keeps id none p = kept none
  intern-Keeps id (some v) p = then-Keeps _ (intern_value-Keeps id v p) (kept (some v))
