-- ===== src/Target/Pypsa/Islands/Joined.antt =====
-- The links of `acIslands` in internal/target/pypsa/powerflow.go: they join the trees of the ends of each
-- branch, and no others.
use meme.Base.{
  ℕ, suc, ◌≡◌, refl, sym, ap, ◌∙◌, ◌≢◌, inl, inr, false, some, List, arith, In, if◌then◌else◌, Text,
  str_eq, str_eq_iff, lookup, insert, lookup-insert_ne, Bool-cases,
}
use meme.Target.Pypsa.Buses.{Pair}
use meme.Target.Pypsa.Islands.{Parents}
use meme.Target.Pypsa.Islands.Forest.{IsForest, entry-insert, key-insert, root_of_root}

-- There is a path between the nodes, along the edges in either direction.
pub data Joined (es : List Pair) : Text → Text → Type 0 where
  here : (x : Text) → Joined es x x
  along : {x y z : Text} → In (x, y) es → Joined es y z → Joined es x z
  back : {x y z : Text} → In (y, x) es → Joined es y z → Joined es x z

module _ {es : List Pair} where
  pub Joined-trans : {x y z : Text} → Joined es x y → Joined es y z → Joined es x z
  Joined-trans (here x) k = k
  Joined-trans (along i j) k = along i (Joined-trans j k)
  Joined-trans (back i j) k = back i (Joined-trans j k)

  pub Joined-sym : {x y : Text} → Joined es x y → Joined es y x
  Joined-sym (here x) = here x
  Joined-sym (along {x} {y} i j) = Joined-trans (Joined-sym j) (back i (here x))
  Joined-sym (back {x} {y} i j) = Joined-trans (Joined-sym j) (along i (here x))

-- The roots and the heights when the tree of `a` hangs below the root `b`
abbrev pub moved : (Text → Text) → Text → Text → Text → Text
moved r a b x = if str_eq (r x) a then b else r x

abbrev pub raised : (Text → Text) → (Text → ℕ) → Text → Text → ℕ
raised r h a x = if str_eq (r x) a then suc (h x) else h x

pub moved-of : (r : Text → Text) (a b x : Text) → r x ≡ a → moved r a b x ≡ b
moved-of r a b x e = rw ((str_eq_iff (r x) a).1 e) refl

pub moved-other : (r : Text → Text) (a b x : Text) → r x ≢ a → moved r a b x ≡ r x
moved-other r a b x n = ground (arith, n, str_eq_iff (r x) a)

raised-of : (r : Text → Text) (h : Text → ℕ) (a x : Text) → r x ≡ a → raised r h a x ≡ suc (h x)
raised-of r h a x e = rw ((str_eq_iff (r x) a).1 e) refl

raised-other : (r : Text → Text) (h : Text → ℕ) (a x : Text) → r x ≢ a → raised r h a x ≡ h x
raised-other r h a x n = ground (arith, n, str_eq_iff (r x) a)

module _ {p : Parents} {r : Text → Text} {h : Text → ℕ} (f : IsForest p r h) where
  module _ (a b : Text) (ea : lookup a p ≡ some a) (eb : lookup b p ≡ some b) (ne : a ≢ b) where
    root_a : r a ≡ a
    root_a = f.own a a ea refl

    root_b : r b ≡ b
    root_b = f.own b b eb refl

    apart : r b ≢ a
    apart z = ne (sym z ∙ root_b)

    low_b : raised r h a b ≡ 0
    low_b = raised-other r h a b apart ∙ ap h (sym root_b) ∙ f.flat b b eb

    apart_root : (m : Text) → str_eq (r m) a ≡ false → r m ≢ a
    apart_root m s z = ground (arith, s, z, str_eq_iff (r m) a)

    old_entry : (m w : Text) → lookup m (insert a b p) ≡ some w → (u : Text) × (lookup m p ≡ some u)
    old_entry m w l = elim (entry-insert a b p m w l) [
      | inl (x, y) ↦ (a, rw y ea)
      | inr (x, y) ↦ (w, y)
    ]

    pub linked-IsForest : IsForest (insert a b p) (moved r a b) (raised r h a)
    linked-IsForest = record {
      same = λ m w l. elim (entry-insert a b p m w l) [
        | inl (x, y) ↦
            rw (x, y) (moved-other r a b b apart ∙ root_b ∙ sym (moved-of r a b a root_a))
        | inr (x, y) ↦ ap (λ z. if str_eq z a then b else z) (f.same m w y)
      ];
      nearer = λ m w l d. elim (entry-insert a b p m w l) [
        | inl (x, y) ↦ rw (x, y) (omega (arith, low_b, raised-of r h a a root_a))
        | inr (x, y) ↦ rw (f.same m w y) (ground (arith, f.nearer m w y d))
      ];
      own = λ m w l d. elim (entry-insert a b p m w l) [
        | inl (x, y) ↦ absurd (ne (sym y ∙ sym d ∙ x))
        | inr (x, y) ↦ let o = f.own m w y d in moved-other r a b m (λ z. x (sym z ∙ o)) ∙ o
      ];
      root = λ m w l.
          let (u, k) = old_entry m w l in
          elim (Bool-cases (str_eq (r m) a)) [
            | inl s ↦ rw s (lookup-insert_ne a b b p ne ∙ eb)
            | inr s ↦
                rw s (lookup-insert_ne a (r m) b p (λ z. apart_root m s (sym z)) ∙ f.root m u k)
          ];
      flat = λ m w l.
          let (u, k) = old_entry m w l in
          elim (Bool-cases (str_eq (r m) a)) [
            | inl s ↦ rw s low_b
            | inr s ↦
                let o = root_of_root f m u k in
                rw s (raised-other r h a (r m) (λ z. apart_root m s (sym o ∙ z)) ∙ f.flat m u k)
          ];
      closed = λ m w l. elim (entry-insert a b p m w l) [
        | inl (x, y) ↦ key-insert a b p w b (rw x eb)
        | inr (x, y) ↦ let (u, k) = f.closed m w y in key-insert a b p w u k
      ];
    }
