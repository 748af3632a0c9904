-- ===== src/Service/Capture/Ring.antt =====
-- The ring of a capped buffer: what a write does to its contents, read from the oldest byte on.
use meme.Base.{
  ℕ, ◌+◌, ◌-◌, ◌%◌, ◌≤◌, ◌<◌, min, ◌≡◌, refl, sym, ap, ◌∙◌, [], ◌++◌, append_assoc, append-nil,
  arith, length, take, drop, Text, length-append, length-take, length-drop, take-append-drop,
  take_all, drop_all, take-append_le, drop-append_le, drop-append_ge,
}
use mathlib.Core.Path.{subst₂}
use native.Mathlib.Nat.{mod-eq_of_lt, mod-eq-sub-mod}
use native.Mathlib.Decide.{dec_lt}
use meme.Service.Capture.{copy, copy_at}

-- The bytes of a ring from the oldest on: those behind the write position, then those before it.
abbrev pub unroll : Text → ℕ → Text
unroll ring pos = drop pos ring ++ take pos ring

pub length-unroll : (ring : Text) (pos : ℕ) → length (unroll ring pos) ≡ length ring
length-unroll ring pos = omega (
  arith,
  length-append (drop pos ring) (take pos ring),
  length-append (take pos ring) (drop pos ring),
  ap length (take-append-drop pos ring),
  length-drop pos ring,
  length-take pos ring,
)

-- A copy over the whole of `dst`.
pub copy_all : (dst src : Text) → length dst ≡ length src → copy dst src ≡ src
unfolding copy
copy_all dst src e =
    rw
      (take_all (length dst) src (omega arith), drop_all (length src) dst (omega arith), append-nil)

-- A copy that is longer than `dst`, and one that is shorter.
pub copy_long : (dst src : Text) → length dst ≤ length src → copy dst src ≡ take (length dst) src
unfolding copy
copy_long dst src h = rw (drop_all (length src) dst h, append-nil)

pub copy_short :
    (dst src : Text) → length src ≤ length dst → copy dst src ≡ src ++ drop (length src) dst
unfolding copy
copy_short dst src h = rw (take_all (length dst) src h)

pub copy-nil : (dst : Text) → copy dst [] ≡ dst
copy-nil dst = copy_short dst [] (omega arith)

unroll_append : (xs ys : Text) (pos : ℕ) → pos ≡ length xs → unroll (xs ++ ys) pos ≡ ys ++ xs
unroll_append xs ys pos e =
    rw
      (
        drop-append_ge pos xs ys (omega arith),
        take-append_le pos xs ys (omega arith),
        take_all pos xs (omega arith),
      )
      (rw (zero_cut) refl)
  where
    zero_cut : pos - length xs ≡ 0
    zero_cut = omega arith

pub mod_wrap : (n t : ℕ) → t ≤ n → n < t + t → n % t ≡ n - t
mod_wrap n t h k = rw (mod-eq-sub-mod {n = n} {m = t} h) (mod-eq_of_lt (omega arith))

-- A write that fits behind the position, and one that goes round; the ring is `xs ++ ys`.
roll_inside :
    (xs ys p : Text) (pos : ℕ)
    → pos ≡ length xs + length p
    → length p < length ys
    → unroll (xs ++ (p ++ drop (length p) ys)) pos ≡ drop (length p) ((ys ++ xs) ++ p)
roll_inside xs ys p pos e h =
    rw
      (
        append_assoc ys xs p,
        drop-append_le (length p) ys (xs ++ p) (omega arith),
        ← append_assoc xs p (drop (length p) ys),
      )
      (unroll_append (xs ++ p) (drop (length p) ys) pos (e ∙ sym (length-append xs p)))

roll_exact :
    (xs ys p : Text)
    → length p ≡ length ys
    → unroll (xs ++ (p ++ drop (length p) ys)) 0 ≡ drop (length p) ((ys ++ xs) ++ p)
roll_exact xs ys p e =
    rw
      (
        append_assoc ys xs p,
        drop-append_le (length p) ys (xs ++ p) (omega arith),
        drop_all (length p) ys (omega arith),
        append-nil p,
      )
      (append-nil (xs ++ p))

roll_round :
    (xs ys p : Text) (pos : ℕ)
    → pos ≡ length p - length ys
    → length ys < length p
    → length p ≤ length xs + length ys
    → let q = drop (length ys) p in
      unroll (q ++ drop (length q) (xs ++ take (length ys) p)) pos
      ≡ drop (length p) ((ys ++ xs) ++ p)
roll_round xs ys p pos e h k =
    let q = drop (length ys) p in
    let lq : length q ≡ length p - length ys = length-drop (length ys) p in
    rw (
      unroll_append q (drop (length q) (xs ++ take (length ys) p)) pos (e ∙ sym lq),
      lq,
      append_assoc ys xs p,
      drop-append_ge (length p) ys (xs ++ p) (omega arith),
      drop-append_le (length p - length ys) xs p (omega arith),
      drop-append_le (length p - length ys) xs (take (length ys) p) (omega arith),
      append_assoc (drop (length p - length ys) xs) (take (length ys) p) q,
      take-append-drop (length ys) p,
    )

-- What the two copies of a write leave in the ring.
written_fits :
    (xs ys p : Text)
    → length p ≤ length ys
    → copy (xs ++ copy ys p) (drop (min (length ys) (length p)) p) ≡ xs ++ (p ++ drop (length p) ys)
written_fits xs ys p h = rw (
  copy_short ys p h,
  drop_all (min (length ys) (length p)) p (omega arith),
  copy-nil (xs ++ (p ++ drop (length p) ys)),
)

written_round :
    (xs ys p : Text)
    → length ys < length p
    → length p ≤ length xs + length ys
    → let q = drop (length ys) p in
      copy (xs ++ copy ys p) (drop (min (length ys) (length p)) p)
      ≡ q ++ drop (length q) (xs ++ take (length ys) p)
written_round xs ys p h k =
    let m : min (length ys) (length p) ≡ length ys = omega arith in
    rw (m, copy_long ys p (omega arith))
      (copy_short (xs ++ take (length ys) p) (drop (length ys) p) (
        omega (
          arith,
          length-append xs (take (length ys) p),
          length-take (length ys) p,
          length-drop (length ys) p,
        )))

-- The same with the ring cut at its position.
roll_parts :
    (xs ys p : Text) (t : ℕ)
    → length xs + length ys ≡ t
    → length xs < t
    → length p < t
    → unroll
        (copy (xs ++ copy ys p) (drop (min (length ys) (length p)) p))
        ((length xs + length p) % t)
      ≡ drop (length p) ((ys ++ xs) ++ p)
roll_parts xs ys p t lt hx hp = elim (dec_lt (length p) (length ys)) [
  | yes h ↦
      rw
        (
          written_fits xs ys p (omega arith),
          mod-eq_of_lt {n = length xs + length p} {m = t} (omega arith),
        )
        (roll_inside xs ys p (length xs + length p) refl h)
  | no h ↦ elim (dec_lt (length ys) (length p)) [
    | yes k ↦
        rw
          (
            written_round xs ys p k (omega arith),
            mod_wrap (length xs + length p) t (omega arith) (omega arith),
          )
          (roll_round xs ys p (length xs + length p - t) (omega arith) k (omega arith))
    | no k ↦
        rw
          (
            written_fits xs ys p (omega arith),
            mod_wrap (length xs + length p) t (omega arith) (omega arith),
            full h k,
          )
          (roll_exact xs ys p (omega arith))
  ]
]
  where
    full : ¬ (length p < length ys) → ¬ (length ys < length p) → length xs + length p - t ≡ 0
    full h k = omega arith

-- A write into the ring drops as many bytes from its old end as it adds at its new one.
pub roll :
    (ring p : Text) (pos t : ℕ)
    → length ring ≡ t
    → pos < t
    → length p < t
    → unroll
        (copy (copy_at ring pos p) (drop (min (length ring - pos) (length p)) p))
        ((pos + length p) % t)
      ≡ drop (length p) (unroll ring pos ++ p)
unfolding copy_at
roll ring p pos t lr hp hl =
    let lx : length (take pos ring) ≡ pos = omega (arith, length-take pos ring) in
    let ly : length (drop pos ring) ≡ length ring - pos = length-drop pos ring in
    let parts = roll_parts (take pos ring) (drop pos ring) p t (omega arith) (omega arith) hl in
    subst₂
      (λ m n.
        unroll (copy (copy_at ring pos p) (drop (min n (length p)) p)) ((m + length p) % t)
        ≡ drop (length p) (unroll ring pos ++ p))
      lx ly parts
