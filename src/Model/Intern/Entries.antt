-- ===== src/Model/Intern/Entries.antt =====
-- The loops of internal/model/intern.go over the sorted keys of a map: every entry is written once,
-- and a map whose entries stay as they are stays as it is.
use meme.Base.{
  insert_same, ◌≡◌, refl, ◌⊎◌, inl, inr, Option, none, some, List, [], ◌∷◌, arith, In, Text, str_eq,
  str_eq_iff, Map, lookup, insert, keys, sort_strings, sorted_keys, lookup-insert, Bool-cases,
}
use meme.Model.Validate.Each.{In-keys, In-sort_strings}
use meme.Model.Intern.{Pass, intern_at, intern_keys, intern_entries}
use meme.Model.Intern.Pass.{Sound, Keeps, pass_done, then-Sound, kept, then-Keeps}

-- `P` of every entry
abbrev pub Entries {ℓ} : {V : Type 0} → (V → Type ℓ) → Map V → Type ℓ
Entries {V = V} P m = (k : Text) (v : V) → lookup k m ≡ some v → P v

module _ {V : Type 0} where
  some_inj : (w v : V) → some w ≡ some v → w ≡ v
  some_inj w v h = cc

  -- `P` of the entries that no key of the list is left for
  abbrev Pending {ℓ} : (V → Type ℓ) → List Text → Map V → Type ℓ
  Pending P ks m = (k : Text) (v : V) → lookup k m ≡ some v → In k ks ⊎ P v

  Pending-absent {ℓ} :
      (P : V → Type ℓ) (k : Text) (ks : List Text) (m : Map V)
      → lookup k m ≡ none
      → Pending P (k ∷ ks) m
      → Pending P ks m
  Pending-absent P k ks m e h j v i = elim (h j v i) [
    | inl (inl p) ↦ cc
    | inl (inr q) ↦ inl q
    | inr p ↦ inr p
  ]

  Pending-written {ℓ} :
      (P : V → Type ℓ) (k : Text) (w : V) (ks : List Text) (m : Map V)
      → P w
      → Pending P (k ∷ ks) m
      → Pending P ks (insert k w m)
  Pending-written P k w ks m p h j v i = elim (Bool-cases (str_eq k j)) [
    | inl e ↦ inr (rw (← some_inj w v (rw (lookup-insert k j w m, e) at i)) p)
    | inr e ↦ elim (h j v (rw (lookup-insert k j w m, e) at i)) [
      | inl (inl q) ↦ ground (arith, str_eq_iff k j)
      | inl (inr q) ↦ inl q
      | inr q ↦ inr q
    ]
  ]

module _ {F V : Type 0} {f : Text → V → Pass F V} where
  at-Sound {ℓ} :
      (P : V → Type ℓ)
      → ((k : Text) (v : V) → Sound (f k v) P)
      → (k : Text) (ks : List Text) (m : Map V) (o : Option V) → lookup k m ≡ o
      → Pending P (k ∷ ks) m
      → Sound (intern_at f k o m) (Pending P ks)
  unfolding intern_at
  at-Sound P hf k ks m none e h = pass_done m (Pending-absent P k ks m e h)
  at-Sound P hf k ks m (some v) e h =
      then-Sound (hf k v) (λ w p. pass_done (insert k w m) (Pending-written P k w ks m p h))

  keys-Sound {ℓ} :
      (P : V → Type ℓ)
      → ((k : Text) (v : V) → Sound (f k v) P)
      → (ks : List Text) (m : Map V) → Pending P ks m
      → Sound (intern_keys f ks m) (Entries P)
  unfolding intern_keys
  keys-Sound P hf [] m h = pass_done m (λ k v e. elim (h k v e) [ inl i ↦ absurd i | inr p ↦ p ])
  keys-Sound P hf (k ∷ ks) m h =
      then-Sound (at-Sound P hf k ks m (lookup k m) refl h) (λ m' h'. keys-Sound P hf ks m' h')

  -- Every entry of the map behind the loop is what one step makes of an entry.
  pub intern_entries-Sound {ℓ} :
      (P : V → Type ℓ) (m : Map V)
      → ((k : Text) (v : V) → Sound (f k v) P)
      → Sound (intern_entries f m) (Entries P)
  unfolding intern_entries sorted_keys
  intern_entries-Sound P m hf =
      keys-Sound P hf (sort_strings (keys m)) m
        (λ k v e. inl (In-sort_strings k (keys m) (In-keys k v m e)))

  at-Keeps :
      (k : Text) (m : Map V) (o : Option V)
      → ((k : Text) (v : V) → lookup k m ≡ some v → Keeps (f k v) v)
      → lookup k m ≡ o
      → Keeps (intern_at f k o m) m
  unfolding intern_at
  at-Keeps k m none hf e = kept m
  at-Keeps k m (some v) hf e = then-Keeps _ (hf k v e) (rw (insert_same k v m e) (kept m))

  keys-Keeps :
      (ks : List Text) (m : Map V)
      → ((k : Text) (v : V) → lookup k m ≡ some v → Keeps (f k v) v)
      → Keeps (intern_keys f ks m) m
  unfolding intern_keys
  keys-Keeps [] m hf = kept m
  keys-Keeps (k ∷ ks) m hf = then-Keeps _ (at-Keeps k m (lookup k m) hf refl) (keys-Keeps ks m hf)

  -- A map whose entries the steps keep
  pub intern_entries-Keeps :
      (m : Map V)
      → ((k : Text) (v : V) → lookup k m ≡ some v → Keeps (f k v) v)
      → Keeps (intern_entries f m) m
  unfolding intern_entries
  intern_entries-Keeps m hf = keys-Keeps (sorted_keys m) m hf
