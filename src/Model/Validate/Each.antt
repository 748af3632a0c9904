-- ===== src/Model/Validate/Each.antt =====
-- The loops of Model.Validate: over a slice, over the sorted keys of a map, and over names that may
-- stand once only. Each loop reports nothing exactly if each round reports nothing.
use meme.Base.{
  ◌≡◌, refl, sym, ◌↔◌, inl, inr, Bool, true, false, not, ◌||◌, Option, none, some, List, [], ◌∷◌,
  ◌++◌, arith, All, In, Text, str_eq, str_eq_iff, str_lt, Map, lookup, keys, has_key, insert_sorted,
  sort_strings, sorted_keys, Bool-cases,
}
use meme.Model.Checks.{Problem, report}

-- A loop over a slice
unfoldable pub each : {A : Type 0} → (A → List Problem) → List A → List Problem
each f [] = []
each f (x ∷ xs) = f x ++ each f xs

-- The value at a key of the map
at_key : {V : Type 0} → (Text → V → List Problem) → Text → Option V → List Problem
at_key f k none = []
at_key f k (some v) = f k v

each_key : {V : Type 0} → (Text → V → List Problem) → Map V → List Text → List Problem
unfolding at_key
each_key f m [] = []
each_key f m (k ∷ ks) = at_key f k (lookup k m) ++ each_key f m ks

-- `for _, k := range keysOf(m)`, with the value at the key
unfoldable pub each_entry : {V : Type 0} → (Text → V → List Problem) → Map V → List Problem
unfolding each_key
each_entry f m = each_key f m (sorted_keys m)

-- `seen[x]` of a set of names
abbrev pub seen_in : Text → List Text → Bool
seen_in x [] = false
seen_in x (y ∷ ys) = str_eq y x || seen_in x ys

-- No element stands in the list twice.
abbrev pub Distinct : List Text → Type 0
Distinct [] = Unit
Distinct (x ∷ xs) = (seen_in x xs ≡ false) × Distinct xs

seen_in_none :
    (x y : Text) (ys : List Text)
    → seen_in x (y ∷ ys) ≡ false
    → (str_eq y x ≡ false) × (seen_in x ys ≡ false)
seen_in_none x y ys h = ground arith

-- What was not seen behind `n` was not seen before it, and is not `n`.
pub fresh_before :
    (n : Text) (seen xs : List Text)
    → All (λ x. seen_in x (n ∷ seen) ≡ false) xs
    → All (λ x. seen_in x seen ≡ false) xs × (seen_in n xs ≡ false)
fresh_before n seen [] a = (tt, refl)
fresh_before n seen (x ∷ xs) (p, a) =
    let (q, r) = seen_in_none x n seen p in
    let (before, absent) = fresh_before n seen xs a in
    ((r, before), ground (arith, str_eq_iff n x, str_eq_iff x n))

-- A key has an entry.
abbrev pub Defined : {V : Type 0} → Text → Map V → Type 0
Defined {V} k m = (v : V) × (lookup k m ≡ some v)

pub has_key_iff : {V : Type 0} (k : Text) (m : Map V) → (has_key k m ≡ true) ↔ Defined k m
unfolding has_key
has_key_iff k m = (found (lookup k m) refl, λ (v, e). rw (e, has_key) refl)
  where
    found :
        (o : Option _)
        → lookup k m ≡ o
        → elim o [ none ↦ false | some v ↦ true ] ≡ true
        → Defined k m
    found none e h = cc
    found (some v) e h = (v, e)

pub append-nil_iff : {A : Type 0} (xs ys : List A) → (xs ++ ys ≡ []) ↔ ((xs ≡ []) × (ys ≡ []))
append-nil_iff [] ys = (λ h. (refl, h), λ (_, h). h)
append-nil_iff (x ∷ xs) ys = (λ h. cc, λ (h, _). cc)

pub append-nil_left : {A : Type 0} (xs ys : List A) → xs ++ ys ≡ [] → xs ≡ []
append-nil_left xs ys h = ((append-nil_iff xs ys).0 h).0

pub append-nil_right : {A : Type 0} (xs ys : List A) → xs ++ ys ≡ [] → ys ≡ []
append-nil_right xs ys h = ((append-nil_iff xs ys).0 h).1

pub each-nil_iff :
    {A : Type 0} (f : A → List Problem) (xs : List A) → (each f xs ≡ []) ↔ All (λ x. f x ≡ []) xs
unfolding each
each-nil_iff f [] = (λ h. tt, λ h. refl)
each-nil_iff f (x ∷ xs) =
    let both = append-nil_iff (f x) (each f xs) in
    let later = each-nil_iff f xs in
    (λ h. ((both.0 h).0, later.0 (both.0 h).1), λ (h, k). both.1 (h, later.1 k))

pub each-nil_at :
    {A : Type 0} (f : A → List Problem) (xs : List A) (x : A) → each f xs ≡ [] → In x xs → f x ≡ []
unfolding each
each-nil_at f [] x h i = absurd i
each-nil_at f (y ∷ xs) x h (inl e) = rw e (append-nil_left (f y) _ h)
each-nil_at f (y ∷ xs) x h (inr i) = each-nil_at f xs x (append-nil_right (f y) _ h) i

pub report-nil_iff :
    (place : Text) (checks : List (Bool × Text))
    → (report place checks ≡ []) ↔ All (λ (bad, message). bad ≡ false) checks
unfolding report
report-nil_iff place [] = (λ h. tt, λ h. refl)
report-nil_iff place ((bad, message) ∷ checks) = ground (arith, report-nil_iff place checks)

-- The head of the checks that passed
pub passed :
    (place : Text) (bad : Bool) (message : Text) (checks : List (Bool × Text))
    → report place ((bad, message) ∷ checks) ≡ []
    → bad ≡ false
passed place bad message checks h = ((report-nil_iff place ((bad, message) ∷ checks)).0 h).0

pub true_of_not : (b : Bool) → not b ≡ false → b ≡ true
true_of_not true h = refl
true_of_not false h = cc

pub All-map {ℓ κ λ'} :
    {A : Type ℓ} {P : A → Type κ} {Q : A → Type λ'} (xs : List A)
    → ((x : A) → P x → Q x)
    → All P xs
    → All Q xs
All-map [] f h = tt
All-map (x ∷ xs) f (h, hs) = (f x h, All-map xs f hs)

In-insert_sorted_new : (k : Text) (ks : List Text) → In k (insert_sorted k ks)
unfolding insert_sorted
In-insert_sorted_new k [] = inl refl
In-insert_sorted_new k (j ∷ js) = elim (Bool-cases (str_lt j k)) [
  | inl h ↦ rw h (inr (In-insert_sorted_new k js))
  | inr h ↦ rw h (inl refl)
]

In-insert_sorted : (a k : Text) (ks : List Text) → In a ks → In a (insert_sorted k ks)
unfolding insert_sorted
In-insert_sorted a k [] i = absurd i
In-insert_sorted a k (j ∷ js) i = elim (Bool-cases (str_lt j k)) [
  | inl h ↦ rw h (elim i [ inl e ↦ inl e | inr r ↦ inr (In-insert_sorted a k js r) ])
  | inr h ↦ rw h (inr i)
]

pub In-sort_strings : (a : Text) (ks : List Text) → In a ks → In a (sort_strings ks)
unfolding sort_strings
In-sort_strings a [] i = absurd i
In-sort_strings a (k ∷ ks) (inl e) = rw e (In-insert_sorted_new k (sort_strings ks))
In-sort_strings a (k ∷ ks) (inr i) = In-insert_sorted a k (sort_strings ks) (In-sort_strings a ks i)

module _ {V : Type 0} where
  pub In-keys : (k : Text) (v : V) (m : Map V) → lookup k m ≡ some v → In k (keys m)
  unfolding lookup
  In-keys k v [] h = cc
  In-keys k v ((j, w) ∷ m) h = elim (Bool-cases (str_eq j k)) [
    | inl e ↦ inl (sym ((str_eq_iff j k).0 e))
    | inr e ↦ inr (In-keys k v m (rw e at h))
  ]

  at_nil :
      (f : Text → V → List Problem) (m : Map V) (ks : List Text) (k : Text) (v : V)
      → each_key f m ks ≡ []
      → In k ks
      → lookup k m ≡ some v
      → f k v ≡ []
  unfolding each_key at_key
  at_nil f m [] k v h i e = absurd i
  at_nil f m (j ∷ ks) k v h (inl p) e =
      let head = ((append-nil_iff (at_key f j (lookup j m)) (each_key f m ks)).0 h).0 in
      rw (← p, e) at head
  at_nil f m (j ∷ ks) k v h (inr i) e =
      at_nil f m ks k v ((append-nil_iff (at_key f j (lookup j m)) (each_key f m ks)).0 h).1 i e

  each_key_nil :
      (f : Text → V → List Problem) (m : Map V) (ks : List Text)
      → ((k : Text) (v : V) → lookup k m ≡ some v → f k v ≡ [])
      → each_key f m ks ≡ []
  unfolding each_key at_key
  each_key_nil f m [] h = refl
  each_key_nil f m (k ∷ ks) h =
      (append-nil_iff (at_key f k (lookup k m)) (each_key f m ks)).1
        (found (lookup k m) refl, each_key_nil f m ks h)
    where
      found : (o : Option V) → lookup k m ≡ o → at_key f k o ≡ []
      found none e = refl
      found (some v) e = h k v e

  -- The loop over the sorted keys reports nothing exactly if no entry of the map has a problem.
  pub each_entry-nil_iff :
      (f : Text → V → List Problem) (m : Map V)
      → (each_entry f m ≡ []) ↔ ((k : Text) (v : V) → lookup k m ≡ some v → f k v ≡ [])
  unfolding each_entry sorted_keys
  each_entry-nil_iff f m = (
    λ h k v e.
        at_nil f m (sort_strings (keys m)) k v h (In-sort_strings k (keys m) (In-keys k v m e)) e,
    λ h. each_key_nil f m (sort_strings (keys m)) h,
  )
