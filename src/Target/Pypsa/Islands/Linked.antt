-- ===== src/Target/Pypsa/Islands/Linked.antt =====
-- The loop of the links in `acIslands` of internal/target/pypsa/powerflow.go: behind it the ends of each
-- branch have one root, and each node is joined to its root by branches.
use meme.Base.{
  ℕ, suc, ◌≡◌, refl, sym, ap, ◌∙◌, ◌≢◌, ◌≤◌, ◌<◌, ◌+◌, inl, inr, some, List, [], ◌∷◌, arith, In,
  All, length, if◌then◌else◌, Text, str_eq, str_eq_iff, lookup, insert, insert_same, Bool-cases,
}
use meme.Target.Pypsa.Buses.{Pair}
use meme.Target.Pypsa.Islands.{Parents, find_root, link, link_all}
use meme.Target.Pypsa.Islands.Forest.{IsForest, key-insert}
use meme.Target.Pypsa.Islands.Find.{find_root-Found}
use meme.Target.Pypsa.Islands.Joined.{
  Joined, along, Joined-trans, Joined-sym, moved, raised, moved-of, moved-other, linked-IsForest,
}

module _ (nodes : List Text) (es : List Pair) where
  -- A forest over the nodes, no higher than `k`, whose trees the edges join
  pub record IsLinked (p : Parents) (r : Text → Text) (h : Text → ℕ) (k : ℕ) : Type 0 where
    pub forest : IsForest p r h
    pub keyed : (n : Text) → In n nodes → (q : Text) × (lookup n p ≡ some q)
    pub low : (n : Text) → In n nodes → h n ≤ k
    pub joined : (n : Text) → In n nodes → Joined es n (r n)

  -- What some links make of the parents: equal roots stay equal, and the ends of each have one.
  pub record Progress (r : Text → Text) (k : ℕ) (links : List Pair) (p : Parents) : Type 0 where
    pub roots : Text → Text
    pub heights : Text → ℕ
    pub linked : IsLinked p roots heights k
    pub equal : (x y : Text) → r x ≡ r y → roots x ≡ roots y
    pub agree : All (λ (x, y). roots x ≡ roots y) links

  weaken :
      {p : Parents} {r : Text → Text} {h : Text → ℕ} {k k' : ℕ}
      → IsLinked p r h k
      → k ≤ k'
      → IsLinked p r h k'
  weaken s le = record {
    forest = s.forest;
    keyed = s.keyed;
    low = λ n i. omega (arith, s.low n i, le);
    joined = s.joined;
  }

  joined_moved :
      (p : Parents) (r : Text → Text) (h : Text → ℕ) (k : ℕ) (x y n : Text)
      → IsLinked p r h k
      → In x nodes
      → In y nodes
      → In (x, y) es
      → In n nodes
      → Joined es n (moved r (r x) (r y) n)
  joined_moved p r h k x y n s ix iy e i = elim (Bool-cases (str_eq (r n) (r x))) [
    | inl c ↦
        let up = rw ((str_eq_iff (r n) (r x)).0 c) at (s.joined n i) in
        rw c (Joined-trans up (Joined-trans (Joined-sym (s.joined x ix)) (along e (s.joined y iy))))
    | inr c ↦ rw c (s.joined n i)
  ]

  -- Hanging the root of one end below that of the other
  hang :
      (p : Parents) (r : Text → Text) (h : Text → ℕ) (k : ℕ) (x y : Text)
      → IsLinked p r h k
      → In x nodes
      → In y nodes
      → In (x, y) es
      → Progress r (suc k) ((x, y) ∷ []) (insert (r x) (r y) p)
  hang p r h k x y s ix iy e =
      let (qx, ex) = s.keyed x ix in
      let (qy, ey) = s.keyed y iy in
      let rx = s.forest.root x qx ex in
      let ry = s.forest.root y qy ey in
      elim (Bool-cases (str_eq (r x) (r y))) [
        | inl c ↦
            let one = (str_eq_iff (r x) (r y)).0 c in
            rw (← one, insert_same (r x) (r x) p rx)
              (record {
                roots = r;
                heights = h;
                linked = weaken s (omega arith);
                equal = λ a b z. z;
                agree = (one, tt);
              })
        | inr c ↦
            let ne : r x ≢ r y = λ z. ground (arith, c, z, str_eq_iff (r x) (r y)) in
            record {
              roots = moved r (r x) (r y);
              heights = raised r h (r x);
              linked = record {
                forest = linked-IsForest s.forest (r x) (r y) rx ry ne;
                keyed = λ n i. let (q, l) = s.keyed n i in key-insert (r x) (r y) p n q l;
                low = λ n i. ground (arith, s.low n i);
                joined = λ n i. joined_moved p r h k x y n s ix iy e i;
              };
              equal = λ a b z. ap (λ w. if str_eq w (r x) then r y else w) z;
              agree = (
                moved-of r (r x) (r y) x refl ∙ sym (moved-other r (r x) (r y) y (λ z. ne (sym z))),
                tt,
              );
            }
      ]

  -- One link, with more fuel than the forest is high
  link-Progress :
      (fuel : ℕ) (p : Parents) (r : Text → Text) (h : Text → ℕ) (k : ℕ) (x y : Text)
      → IsLinked p r h k
      → k < fuel
      → In x nodes
      → In y nodes
      → In (x, y) es
      → Progress r (suc k) ((x, y) ∷ []) (link fuel p (x, y))
  unfolding link
  link-Progress fuel p r h k x y s enough ix iy e =
      let (qx, ex) = s.keyed x ix in
      let (qy, ey) = s.keyed y iy in
      let fx = find_root-Found fuel p x qx s.forest ex (omega (arith, s.low x ix, enough)) in
      let (q, l) = fx.keys_kept y qy ey in
      let fy =
        find_root-Found fuel (find_root fuel p x).1 y q fx.forest l
          (omega (arith, s.low y iy, enough)) in
      rw (fx.at_root, fy.at_root)
        (hang _ r h k x y
          (record {
            forest = fy.forest;
            keyed = λ n i.
                let (a, b) = s.keyed n i in
                let (a', b') = fx.keys_kept n a b in fy.keys_kept n a' b';
            low = s.low;
            joined = s.joined;
          })
          ix iy e)

  abbrev pub IsEdge : Pair → Type 0
  IsEdge (x, y) = In x nodes × In y nodes × In (x, y) es

  -- All links, with fuel for their number
  pub link_all-Progress :
      (fuel : ℕ) (links : List Pair) (p : Parents) (r : Text → Text) (h : Text → ℕ) (k : ℕ)
      → IsLinked p r h k
      → k + length links ≤ fuel
      → All IsEdge links
      → Progress r (k + length links) links (link_all fuel p links)
  unfolding link_all
  link_all-Progress fuel [] p r h k s enough a = record {
    roots = r;
    heights = h;
    linked = weaken s (omega arith);
    equal = λ x y z. z;
    agree = tt;
  }
  link_all-Progress fuel ((x, y) ∷ links) p r h k s enough ((ix, iy, e), a) =
      let one = link-Progress fuel p r h k x y s (omega (arith, enough)) ix iy e in
      let rest =
        link_all-Progress fuel links (link fuel p (x, y)) one.roots one.heights (suc k) one.linked
          (omega (arith, enough)) a in
      record {
        roots = rest.roots;
        heights = rest.heights;
        linked = weaken rest.linked (omega arith);
        equal = λ u v z. rest.equal u v (one.equal u v z);
        agree = (rest.equal x y one.agree.0, rest.agree);
      }
