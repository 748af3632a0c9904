-- ===== src/Target/Pypsa/Islands/Find.antt =====
-- `find` in `acIslands` of internal/target/pypsa/powerflow.go: it ends at the root of its node.
use meme.Base.{
  ℕ, zero, suc, ◌≡◌, sym, ◌∙◌, ◌≢◌, ◌<◌, inl, inr, some, arith, Text, str_eq, str_eq_iff, lookup,
  insert, Bool-cases,
}
use meme.Target.Pypsa.Islands.{Parents, find_root}
use meme.Target.Pypsa.Islands.Forest.{IsForest, key-insert, grand_nearer, halved-IsForest}

-- The keys of one map are keys of another.
abbrev pub KeepsKeys : Parents → Parents → Type 0
KeepsKeys p p' = (m w : Text) → lookup m p ≡ some w → (g : Text) × (lookup m p' ≡ some g)

pub record Found (p : Parents) (r : Text → Text) (h : Text → ℕ) (n : Text) (o : Text × Parents)
    : Type 0 where
  pub at_root : o.0 ≡ r n
  pub forest : IsForest o.1 r h
  pub keys_kept : KeepsKeys p o.1

module _ {r : Text → Text} {h : Text → ℕ} where
  -- With more fuel than the node is high, `find` gives the node's root; the parents stay a forest with
  -- the same roots and heights.
  pub find_root-Found :
      (fuel : ℕ) (p : Parents) (n q : Text)
      → IsForest p r h
      → lookup n p ≡ some q
      → h n < fuel
      → Found p r h n (find_root fuel p n)
  unfolding find_root
  find_root-Found zero p n q f e low = absurd (omega arith)
  find_root-Found (suc fuel) p n q f e low = elim (Bool-cases (str_eq q n)) [
    | inl s ↦
        rw (e, s)
          (record {
            at_root = sym (f.own n q e ((str_eq_iff q n).0 s));
            forest = f;
            keys_kept = λ m w l. (w, l);
          })
    | inr s ↦
        let ne : q ≢ n = λ x. ground (arith, s, x, str_eq_iff q n) in
        let (g, e') = f.closed n q e in
        let (u, e'') = f.closed q g e' in
        let (v, l) = key-insert n g p g u e'' in
        let next =
          find_root-Found fuel (insert n g p) g v (halved-IsForest f n q g e e' ne) l
            (omega (arith, low, grand_nearer f n q g e e' ne)) in
        rw (e, s, e')
          (record {
            at_root = next.at_root ∙ f.same q g e' ∙ f.same n q e;
            forest = next.forest;
            keys_kept = λ m w k. let (w', k') = key-insert n g p m w k in next.keys_kept m w' k';
          })
  ]
