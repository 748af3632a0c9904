-- ===== src/Target/Pypsa/Islands/Forest.antt =====
-- The invariant of the parents in `acIslands` of internal/target/pypsa/powerflow.go: they are a forest,
-- with a root and a height for each node, which a halved path keeps.
use meme.Base.{
  ℕ, ◌≡◌, refl, sym, ap, ◌∙◌, ◌⊎◌, ◌≢◌, ◌<◌, inl, inr, some, arith, Text, str_eq, str_eq_iff,
  some_injective, lookup, insert, lookup-insert, lookup-insert_ne, Bool-cases,
}
use meme.Target.Pypsa.Islands.{Parents}

-- Each parent is a node with the same root, nearer to it; a root is its own parent.
pub record IsForest (p : Parents) (r : Text → Text) (h : Text → ℕ) : Type 0 where
  pub same : (n q : Text) → lookup n p ≡ some q → r q ≡ r n
  pub nearer : (n q : Text) → lookup n p ≡ some q → q ≢ n → h q < h n
  pub own : (n q : Text) → lookup n p ≡ some q → q ≡ n → r n ≡ n
  pub root : (n q : Text) → lookup n p ≡ some q → lookup (r n) p ≡ some (r n)
  pub flat : (n q : Text) → lookup n p ≡ some q → h (r n) ≡ 0
  pub closed : (n q : Text) → lookup n p ≡ some q → (g : Text) × (lookup q p ≡ some g)

-- An entry behind an assignment is the new one, or an old one of another key.
pub entry-insert :
    (k v : Text) (p : Parents) (m w : Text)
    → lookup m (insert k v p) ≡ some w
    → ((w ≡ v) × (m ≡ k)) ⊎ ((k ≢ m) × (lookup m p ≡ some w))
entry-insert k v p m w e = elim (Bool-cases (str_eq k m)) [
  | inl s ↦
      let found : some v ≡ some w = rw (lookup-insert k m v p, s) at e in
      inl (sym (some_injective found), sym ((str_eq_iff k m).0 s))
  | inr s ↦ inr (λ x. ground (arith, s, x, str_eq_iff k m), rw (lookup-insert k m v p, s) at e)
]

-- A key stays a key.
pub key-insert :
    (k v : Text) (p : Parents) (m w : Text)
    → lookup m p ≡ some w
    → (g : Text) × (lookup m (insert k v p) ≡ some g)
key-insert k v p m w e = elim (Bool-cases (str_eq k m)) [
  | inl s ↦ (v, rw (lookup-insert k m v p, s) refl)
  | inr s ↦ (w, rw (lookup-insert k m v p, s) e)
]

module _ {p : Parents} {r : Text → Text} {h : Text → ℕ} (f : IsForest p r h) where
  -- The root of a root
  pub root_of_root : (n q : Text) → lookup n p ≡ some q → r (r n) ≡ r n
  root_of_root n q e = f.own (r n) (r n) (f.root n q e) refl

  module _ (n q g : Text) (e : lookup n p ≡ some q) (e' : lookup q p ≡ some g) (ne : q ≢ n) where
    pub grand_nearer : h g < h n
    grand_nearer = elim (Bool-cases (str_eq g q)) [
      | inl s ↦ rw ((str_eq_iff g q).0 s) (f.nearer n q e ne)
      | inr s ↦
          omega
            (arith, f.nearer q g e' (λ x. ground (arith, s, x, str_eq_iff g q)), f.nearer n q e ne)
    ]

    not_grand : g ≢ n
    not_grand x = let bad : h n < h n = rw x at grand_nearer in omega arith

    old_key : (m w : Text) → lookup m (insert n g p) ≡ some w → (u : Text) × (lookup m p ≡ some u)
    old_key m w l = elim (entry-insert n g p m w l) [
      | inl (x, y) ↦ (q, rw y e)
      | inr (x, y) ↦ (w, y)
    ]

    -- A root has no parent that is halved.
    not_root : (m w : Text) → lookup m p ≡ some w → n ≢ r m
    not_root m w l x = ne (some_injective (sym e ∙ ap (λ k. lookup k p) x ∙ f.root m w l) ∙ sym x)

    -- A path that is halved at a node that is no root
    pub halved-IsForest : IsForest (insert n g p) r h
    halved-IsForest = record {
      same = λ m w l. elim (entry-insert n g p m w l) [
        | inl (x, y) ↦ rw (x, y) (f.same q g e' ∙ f.same n q e)
        | inr (x, y) ↦ f.same m w y
      ];
      nearer = λ m w l d. elim (entry-insert n g p m w l) [
        | inl (x, y) ↦ rw (x, y) grand_nearer
        | inr (x, y) ↦ f.nearer m w y d
      ];
      own = λ m w l d. elim (entry-insert n g p m w l) [
        | inl (x, y) ↦ absurd (not_grand (sym x ∙ d ∙ y))
        | inr (x, y) ↦ f.own m w y d
      ];
      root = λ m w l.
          let (u, l') = old_key m w l in
          lookup-insert_ne n (r m) g p (not_root m u l') ∙ f.root m u l';
      flat = λ m w l. let (u, l') = old_key m w l in f.flat m u l';
      closed = λ m w l. elim (entry-insert n g p m w l) [
        | inl (x, y) ↦ let (u, l') = f.closed q g e' in key-insert n g p w u (rw x l')
        | inr (x, y) ↦ let (u, l') = f.closed m w y in key-insert n g p w u l'
      ];
    }
