-- ===== src/Service/Capture/Refine.antt =====
-- A capped buffer against the stream of bytes written to it.
use meme.Base.{
  ℕ, ◌+◌, ◌-◌, ◌%◌, ◌<◌, ◌≤◌, min, ◌≡◌, refl, sym, ap, ◌∙◌, inl, inr, [], ◌∷◌, ◌++◌, append_assoc,
  append-nil, arith, length, take, drop, replicate, Text, length-append, length-take, length-drop,
  length-replicate, take_all, drop_all, take-append_le, take-append_ge, drop-append_le,
  drop-append_ge, drop-drop, true, false, ltb, ltb→lt, leb, leb→le, Bool-cases,
}
use meme.Service.Capture.{CappedBuffer, copy, copy_at, write_ring, allocate, write_tail, write}
use mathlib.Core.Path.{subst, subst₂}
use native.Mathlib.Decide.{dec_le}
use meme.Service.Capture.Ring.{unroll, length-unroll, copy_all, roll}

-- The ring of a buffer that has seen the bytes `rest` behind its head.
pub record Filled (t : ℕ) (ring : Text) (pos len : ℕ) (rest : Text) : Type 0 where
  pub sized : length ring ≡ t
  pub inside : pos < t
  pub counted : len ≡ min t (length rest)
  pub newest : unroll ring pos ≡ drop (length rest) (replicate t 0 ++ rest)

-- Before the first byte behind the head there is no ring.
pub data HoldsTail (t : ℕ) (ring : Text) (pos len : ℕ) (rest : Text) : Type 0 where
  nothing : ring ≡ [] → pos ≡ 0 → len ≡ 0 → rest ≡ [] → HoldsTail t ring pos len rest
  filled : Filled t ring pos len rest → HoldsTail t ring pos len rest

pub record Holds (b : CappedBuffer) (s : Text) : Type 0 where
  pub some_tail : 0 < b.tail_max
  pub total : b.total ≡ length s
  pub head : b.head ≡ take b.head_max s
  pub tail : HoldsTail b.tail_max b.ring b.ring_pos b.ring_len (drop b.head_max s)

-- The newest bytes after one more write.
newest_append :
    (z rest p : Text)
    → drop (length p) (drop (length rest) (z ++ rest) ++ p)
      ≡ drop (length (rest ++ p)) (z ++ (rest ++ p))
newest_append z rest p =
    let fits : length rest ≤ length (z ++ rest) = omega (arith, length-append z rest) in
    rw (
      ← drop-append_le (length rest) (z ++ rest) p fits,
      drop-drop (length p) (length rest) ((z ++ rest) ++ p),
      append_assoc z rest p,
      ← length-append rest p,
    )

length-newest :
    (t : ℕ) (rest : Text) → length (drop (length rest) (replicate {A = ℕ} t 0 ++ rest)) ≡ t
length-newest t rest = omega (
  arith,
  length-drop (length rest) (replicate {A = ℕ} t 0 ++ rest),
  length-append (replicate {A = ℕ} t 0) rest,
  length-replicate {A = ℕ} t 0,
)

-- A write of at least the whole ring.
overwrite-Filled :
    (t : ℕ) (ring rest p : Text)
    → 0 < t
    → length ring ≡ t
    → t ≤ length p
    → Filled t (copy ring (drop (length p - t) p)) 0 t (rest ++ p)
overwrite-Filled t ring rest p pos lr h =
    let old = drop (length rest) (replicate {A = ℕ} t 0 ++ rest) in
    let lo : length old ≡ t = length-newest t rest in
    let ld : length ring ≡ length (drop (length p - t) p) =
      omega (arith, length-drop (length p - t) p) in
    let whole : copy ring (drop (length p - t) p) ≡ drop (length p - t) p =
      copy_all ring (drop (length p - t) p) ld in
    let cut : drop (length p) (old ++ p) ≡ drop (length p - t) p =
      rw (drop-append_ge (length p) old p (omega arith), lo) in
    record {
      sized = ap length whole ∙ sym ld ∙ lr;
      inside = pos;
      counted = omega (arith, length-append rest p);
      newest =
          append-nil (copy ring (drop (length p - t) p))
          ∙ whole
          ∙ sym cut
          ∙ newest_append (replicate t 0) rest p;
    }

-- A shorter write.
roll-Filled :
    (t : ℕ) (ring : Text) (pos len : ℕ) (rest p : Text)
    → length p < t
    → Filled t ring pos len rest
    → Filled t
        (copy (copy_at ring pos p) (drop (min (length ring - pos) (length p)) p))
        ((pos + length p) % t)
        (min (len + length p) t)
        (rest ++ p)
roll-Filled t ring pos len rest p h f =
    let rolled = roll ring p pos t f.sized f.inside h in
    let new = copy (copy_at ring pos p) (drop (min (length ring - pos) (length p)) p) in
    let now : unroll new ((pos + length p) % t)
        ≡ drop (length (rest ++ p)) (replicate t 0 ++ (rest ++ p)) =
      rolled ∙ ap (λ u. drop (length p) (u ++ p)) f.newest ∙ newest_append (replicate t 0) rest p in
    record {
      sized =
          sym (length-unroll new ((pos + length p) % t))
          ∙ ap length now
          ∙ length-newest t (rest ++ p);
      inside = omega (arith, f.inside);
      counted = omega (arith, f.counted, length-append rest p);
      newest = now;
    }

write_ring-Filled :
    (b : CappedBuffer) (rest p : Text)
    → Filled b.tail_max b.ring b.ring_pos b.ring_len rest
    → let c = write_ring b p in Filled b.tail_max c.ring c.ring_pos c.ring_len (rest ++ p)
unfolding write_ring
write_ring-Filled b rest p f = elim (Bool-cases (leb b.tail_max (length p))) [
  | inl long ↦ rw long (
      overwrite-Filled b.tail_max b.ring rest p (omega (arith, f.inside)) f.sized
        (leb→le b.tail_max (length p) long))
  | inr short ↦
      rw short (roll-Filled b.tail_max b.ring b.ring_pos b.ring_len rest p (ground arith) f)
]

allocate-Filled :
    (b : CappedBuffer) (rest : Text)
    → 0 < b.tail_max
    → HoldsTail b.tail_max b.ring b.ring_pos b.ring_len rest
    → let c = allocate b in Filled b.tail_max c.ring c.ring_pos c.ring_len rest
unfolding allocate
allocate-Filled b rest t (nothing er ep el es) =
    rw (er, ep, el, es)
      (record {
        sized = length-replicate b.tail_max 0;
        inside = t;
        counted = omega arith;
        newest = refl;
      })
allocate-Filled b rest t (filled f) = rw (kept) f
  where
    kept : leb (length b.ring) 0 ≡ false
    kept = ground (arith, f.sized)

tail_max-allocate : (b : CappedBuffer) → (allocate b).tail_max ≡ b.tail_max
unfolding allocate
tail_max-allocate b = ground arith

write_tail-HoldsTail :
    (b : CappedBuffer) (rest p : Text)
    → 0 < b.tail_max
    → HoldsTail b.tail_max b.ring b.ring_pos b.ring_len rest
    → let c = write_tail b p in HoldsTail b.tail_max c.ring c.ring_pos c.ring_len (rest ++ p)
unfolding write_tail
write_tail-HoldsTail b rest [] t h = rw append-nil h
write_tail-HoldsTail b rest (c ∷ p) t h =
    let f = write_ring-Filled (allocate b) rest (c ∷ p) (
      subst (λ n. Filled n (allocate b).ring (allocate b).ring_pos (allocate b).ring_len rest)
        (sym (tail_max-allocate b)) (allocate-Filled b rest t h)) in
    let d = write_ring (allocate b) (c ∷ p) in
    filled
      (subst (λ n. Filled n d.ring d.ring_pos d.ring_len (rest ++ c ∷ p)) (tail_max-allocate b) f)

-- A write behind the head leaves the other fields as they are.
write_tail_keeps :
    (b : CappedBuffer) (p : Text)
    → ((write_tail b p).head ≡ b.head)
      × ((write_tail b p).head_max ≡ b.head_max)
      × ((write_tail b p).tail_max ≡ b.tail_max)
      × ((write_tail b p).total ≡ b.total)
unfolding write_tail write_ring allocate
write_tail_keeps b [] = (refl, refl, refl, refl)
write_tail_keeps b (c ∷ p) = ground arith

take-min : (n : ℕ) (p : Text) → take (min n (length p)) p ≡ take n p
take-min n p = elim (dec_le n (length p)) [
  | yes h ↦ ap (λ k. take k p) (omega arith)
  | no h ↦ take_all (min n (length p)) p (omega arith) ∙ sym (take_all n p (omega arith))
]

drop-min : (n : ℕ) (p : Text) → drop (min n (length p)) p ≡ drop n p
drop-min n p = elim (dec_le n (length p)) [
  | yes h ↦ ap (λ k. drop k p) (omega arith)
  | no h ↦ drop_all (min n (length p)) p (omega arith) ∙ sym (drop_all n p (omega arith))
]

-- What is left of a write when its total is counted and its head is filled.
write_tail-Holds :
    (b : CappedBuffer) (s rest p : Text)
    → 0 < b.tail_max
    → b.total ≡ length s
    → b.head ≡ take b.head_max s
    → HoldsTail b.tail_max b.ring b.ring_pos b.ring_len rest
    → rest ++ p ≡ drop b.head_max s
    → Holds (write_tail b p) s
write_tail-Holds b s rest p t total head tail e =
    let keeps = write_tail_keeps b p in
    let c = write_tail b p in
    record {
      some_tail = omega (arith, keeps.2);
      total = keeps.3 ∙ total;
      head = keeps.0 ∙ head ∙ ap (λ n. take n s) (sym keeps.1);
      tail =
          subst₂ (λ n r. HoldsTail n c.ring c.ring_pos c.ring_len r) (sym keeps.2)
            (e ∙ ap (λ n. drop n s) (sym keeps.1)) (write_tail-HoldsTail b rest p t tail);
    }

pub write_keeps :
    (b : CappedBuffer) (p : Text)
    → ((write b p).head_max ≡ b.head_max) × ((write b p).tail_max ≡ b.tail_max)
unfolding write
write_keeps b p = elim (Bool-cases (ltb 0 (b.head_max - length b.head))) [
  | inl room ↦ rw room (
      let k =
        write_tail_keeps
          (record b {
            total = b.total + length p;
            head = b.head ++ take (min (b.head_max - length b.head) (length p)) p;
          })
          (drop (min (b.head_max - length b.head) (length p)) p) in
      (k.1, k.2))
  | inr full ↦
      rw full (let k = write_tail_keeps (record b { total = b.total + length p }) p in (k.1, k.2))
]

-- One write adds its bytes to the stream.
pub write-Holds : (b : CappedBuffer) (s p : Text) → Holds b s → Holds (write b p) (s ++ p)
unfolding write
write-Holds b s p h = elim (Bool-cases (ltb 0 (b.head_max - length b.head))) [
  | inl room ↦ rw room (
      write_tail-Holds
        (record b {
          total = b.total + length p;
          head = b.head ++ take (min (b.head_max - length b.head) (length p)) p;
        })
        (s ++ p) (drop b.head_max s) (drop (min (b.head_max - length b.head) (length p)) p)
        h.some_tail counted
        (rw (
          take-min (b.head_max - length b.head) p,
          all_head room,
          take-append_ge b.head_max s p (short room),
        ))
        h.tail
        (rw (
          drop-min (b.head_max - length b.head) p,
          all_head room,
          drop-append_ge b.head_max s p (short room),
          drop_all b.head_max s (short room),
        )))
  | inr none_left ↦ rw none_left (
      write_tail-Holds (record b { total = b.total + length p }) (s ++ p) (drop b.head_max s) p
        h.some_tail counted (h.head ∙ sym (take-append_le b.head_max s p (long none_left))) h.tail
        (sym (drop-append_le b.head_max s p (long none_left))))
]
  where
    counted : b.total + length p ≡ length (s ++ p)
    counted = omega (arith, h.total, length-append s p)

    head_length : length b.head ≡ min b.head_max (length s)
    head_length = ap length h.head ∙ length-take b.head_max s

    short : ltb 0 (b.head_max - length b.head) ≡ true → length s ≤ b.head_max
    short room = omega (arith, head_length, ltb→lt 0 (b.head_max - length b.head) room)

    long : ltb 0 (b.head_max - length b.head) ≡ false → b.head_max ≤ length s
    long full = ground (arith, head_length)

    all_head : ltb 0 (b.head_max - length b.head) ≡ true → b.head ≡ s
    all_head room = h.head ∙ take_all b.head_max s (short room)
