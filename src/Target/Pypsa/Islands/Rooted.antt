-- ===== src/Target/Pypsa/Islands/Rooted.antt =====
-- The first parents and the last roots of `acIslands` in internal/target/pypsa/powerflow.go.
use meme.Base.{
  ℕ, ◌≡◌, refl, sym, ap, ◌∙◌, ◌⊎◌, ◌↔◌, ◌<◌, inl, inr, true, some, List, [], ◌∷◌, map, arith, In,
  All, Text, str_eq, str_eq_iff, lookup, insert, lookup-insert, has_key, Bool-cases,
}
use meme.Model.Validate.Each.{has_key_iff}
use meme.Target.Pypsa.Buses.{Pair}
use meme.Target.Pypsa.Buses.Hubs.{hosts}
use meme.Target.Pypsa.Islands.{Parents, find_root, self_parents, rooted}
use meme.Target.Pypsa.Islands.Forest.{entry-insert, key-insert}
use meme.Target.Pypsa.Islands.Find.{find_root-Found}
use meme.Target.Pypsa.Islands.Joined.{here}
use meme.Target.Pypsa.Islands.Linked.{IsLinked}

-- Each entry of the first parents is a node's own, and was there before or is of a node of the list.
self_entry :
    (ns : List Text) (p : Parents) (n q : Text)
    → lookup n (self_parents ns p) ≡ some q
    → ((q ≡ n) × In n ns) ⊎ (lookup n p ≡ some q)
unfolding self_parents
self_entry [] p n q l = inr l
self_entry (k ∷ ns) p n q l = elim (self_entry ns (insert k k p) n q l) [
  | inl (a, i) ↦ inl (a, inr i)
  | inr l' ↦ elim (entry-insert k k p n q l') [
    | inl (a, b) ↦ inl (a ∙ sym b, inl b)
    | inr (a, b) ↦ inr b
  ]
]

self_keep :
    (ns : List Text) (p : Parents) (n w : Text)
    → lookup n p ≡ some w
    → (q : Text) × (lookup n (self_parents ns p) ≡ some q)
unfolding self_parents
self_keep [] p n w l = (w, l)
self_keep (k ∷ ns) p n w l =
    let (u, l') = key-insert k k p n w l in self_keep ns (insert k k p) n u l'

self_keyed :
    (ns : List Text) (p : Parents) (n : Text)
    → In n ns
    → (q : Text) × (lookup n (self_parents ns p) ≡ some q)
unfolding self_parents
self_keyed [] p n i = absurd i
self_keyed (k ∷ ns) p n (inl e) =
    self_keep ns (insert k k p) n k (rw (lookup-insert k n k p, (str_eq_iff k n).1 (sym e)) refl)
self_keyed (k ∷ ns) p n (inr i) = self_keyed ns (insert k k p) n i

self_own :
    (nodes : List Text) (n q : Text)
    → lookup n (self_parents nodes []) ≡ some q
    → (q ≡ n) × In n nodes
unfolding lookup
self_own nodes n q l = elim (self_entry nodes [] n q l) [ inl x ↦ x | inr x ↦ cc ]

pub In-of_self :
    (nodes : List Text) (n : Text) → has_key n (self_parents nodes []) ≡ true → In n nodes
In-of_self nodes n h =
    let (q, l) = (has_key_iff n (self_parents nodes [])).0 h in (self_own nodes n q l).1

-- At first each node is its own root.
pub self_parents-IsLinked :
    (nodes : List Text) (es : List Pair)
    → IsLinked nodes es (self_parents nodes []) (λ n. n) (λ n. 0) 0
self_parents-IsLinked nodes es = record {
  forest = record {
    same = λ n q l. (self_own nodes n q l).0;
    nearer = λ n q l d. absurd (d (self_own nodes n q l).0);
    own = λ n q l d. refl;
    root = λ n q l. rw ((self_own nodes n q l).0) at l;
    flat = λ n q l. refl;
    closed = λ n q l. (q, rw (sym (self_own nodes n q l).0) at l);
  };
  keyed = λ n i. self_keyed nodes [] n i;
  low = λ n i. omega arith;
  joined = λ n i. here n;
}

-- The last loop pairs each node with its root.
pub rooted_lem :
    (nodes : List Text) (es : List Pair) (fuel : ℕ) (p : Parents) (r : Text → Text) (h : Text → ℕ)
    (k : ℕ) (ns : List Text)
    → IsLinked nodes es p r h k
    → k < fuel
    → All (λ n. In n nodes) ns
    → rooted fuel p ns ≡ map (λ n. (n, r n)) ns
unfolding rooted
rooted_lem nodes es fuel p r h k [] s enough a = refl
rooted_lem nodes es fuel p r h k (n ∷ ns) s enough (i, a) =
    let (q, l) = s.keyed n i in
    let f = find_root-Found fuel p n q s.forest l (omega (arith, s.low n i, enough)) in
    let rest =
      rooted_lem nodes es fuel (find_root fuel p n).1 r h k ns
        (record {
          forest = f.forest;
          keyed = λ m j. let (u, l') = s.keyed m j in f.keys_kept m u l';
          low = s.low;
          joined = s.joined;
        })
        enough a in
    rw (f.at_root, rest) refl

hosts-In :
    (r : Text → Text) (c x : Text) (ns : List Text)
    → In x (hosts c (map (λ n. (n, r n)) ns))
    → In x ns × (r x ≡ c)
hosts-In r c x [] i = absurd i
hosts-In r c x (n ∷ ns) i = elim (Bool-cases (str_eq (r n) c)) [
  | inl s ↦ elim (rw s at i) [
    | inl e ↦ (inl e, ap r e ∙ (str_eq_iff (r n) c).0 s)
    | inr j ↦ let (k, e) = hosts-In r c x ns j in (inr k, e)
  ]
  | inr s ↦ let (k, e) = hosts-In r c x ns (rw s at i) in (inr k, e)
]

In-hosts :
    (r : Text → Text) (c x : Text) (ns : List Text)
    → In x ns
    → r x ≡ c
    → In x (hosts c (map (λ n. (n, r n)) ns))
In-hosts r c x [] i e = absurd i
In-hosts r c x (n ∷ ns) (inl i) e = rw ((str_eq_iff (r n) c).1 (sym (ap r i) ∙ e)) (inl i)
In-hosts r c x (n ∷ ns) (inr i) e = elim (Bool-cases (str_eq (r n) c)) [
  | inl s ↦ rw s (inr (In-hosts r c x ns i e))
  | inr s ↦ rw s (In-hosts r c x ns i e)
]

-- The nodes of one root
pub In-hosts_iff :
    (r : Text → Text) (c x : Text) (ns : List Text)
    → In x (hosts c (map (λ n. (n, r n)) ns)) ↔ (In x ns × (r x ≡ c))
In-hosts_iff r c x ns = (hosts-In r c x ns, λ (i, e). In-hosts r c x ns i e)
