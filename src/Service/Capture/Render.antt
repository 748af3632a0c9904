-- ===== src/Service/Capture/Render.antt =====
-- What a capped buffer shows of the bytes written to it.
use native.Mathlib.Decide.{dec_le}
use meme.Base.{
  ℕ, ◌+◌, ◌-◌, ◌<◌, ◌≤◌, min, ◌≡◌, refl, sym, ap, ap₂, take-nil, drop-nil, ◌∙◌, List, [], ◌∷◌, ◌++◌,
  append_assoc, append-nil, arith, length, take, drop, concat, Text, length-take, length-drop,
  take_all, take-append-drop, drop-drop, true, false, leb, le→leb, if◌then◌else◌,
}
use meme.Service.Capture.{
  CappedBuffer, new_capped_buffer, write, write_all, ring_tail, render, log_text, truncation_marker,
}
use meme.Service.Capture.Tail.{ring_tail-eq-drop}
use meme.Service.Capture.Refine.{HoldsTail, nothing, filled, Holds, write-Holds, write_keeps}

log_text_whole :
    (head_max tail_max : ℕ) (s : Text)
    → length s ≤ head_max + tail_max
    → log_text head_max tail_max s ≡ s
unfolding log_text
log_text_whole head_max tail_max s h = rw (le→leb (length s) (head_max + tail_max) h)

-- A log whose head and tail are cut out of `s`, by the parts behind the head.
log_text_parts :
    (head_max tail_max : ℕ) (s : Text)
    → head_max < length s
    → let rest = drop head_max s in
      let tail = drop (length rest - tail_max) rest in
      log_text head_max tail_max s ≡ (
        if leb (length rest - length tail) 0
        then take head_max s ++ tail
        else take head_max s ++ (truncation_marker (length rest - length tail) ++ tail))
unfolding log_text
log_text_parts head_max tail_max s h = elim (dec_le (length s) (head_max + tail_max)) [
  | yes small ↦
      let cut : length (drop head_max s) - tail_max ≡ 0 = omega (arith, length-drop head_max s) in
      let zero_left : length (drop head_max s) - length (drop head_max s) ≡ 0 = omega arith in
      rw (le→leb (length s) (head_max + tail_max) small, cut, zero_left)
        (sym (take-append-drop head_max s))
  | no big ↦
      let rest = drop head_max s in
      let lr : length rest ≡ length s - head_max = length-drop head_max s in
      let tail = drop (length rest - tail_max) rest in
      let lt : length tail ≡ tail_max = omega (arith, length-drop (length rest - tail_max) rest) in
      let cut : drop (length s - tail_max) s ≡ tail = sym (
        drop-drop (length rest - tail_max) head_max s
        ∙ ap (λ n. drop n s) (sum_cut (length rest) lr big)) in
      let size : length s - (length (take head_max s) + length tail) ≡ length rest - length tail =
        omega (arith, length-take head_max s) in
      let more : leb (length rest - length tail) 0 ≡ false = ground arith in
      let long : leb (length s) (head_max + tail_max) ≡ false = ground arith in
      rw (long, cut, more, size)
]
  where
    sum_cut :
        (n : ℕ)
        → n ≡ length s - head_max
        → ¬ (length s ≤ head_max + tail_max)
        → head_max + (n - tail_max) ≡ length s - tail_max
    sum_cut n e big = omega arith

-- The tail that a buffer shows, if bytes went behind its head.
ring_tail_of_HoldsTail :
    (b : CappedBuffer) (rest : Text)
    → 0 < length rest
    → HoldsTail b.tail_max b.ring b.ring_pos b.ring_len rest
    → ring_tail b ≡ drop (length rest - b.tail_max) rest
ring_tail_of_HoldsTail b rest more (nothing er ep el es) = absurd (omega (arith, ap length es))
ring_tail_of_HoldsTail b rest more (filled f) = ring_tail-eq-drop b rest f

render_short : (b : CappedBuffer) (s : Text) → Holds b s → length s ≤ b.head_max → render b ≡ s
unfolding render
render_short b s h small =
    let lh : length b.head ≡ min b.head_max (length s) =
      ap length h.head ∙ length-take b.head_max s in
    let none_over : leb (b.total - length b.head) 0 ≡ true =
      le→leb (b.total - length b.head) 0 (omega (arith, h.total)) in
    rw none_over (h.head ∙ take_all b.head_max s small)

render_long :
    (b : CappedBuffer) (s : Text)
    → Holds b s
    → b.head_max < length s
    → render b ≡ log_text b.head_max b.tail_max s
unfolding render
render_long b s h big =
    let rest = drop b.head_max s in
    let lr : length rest ≡ length s - b.head_max = length-drop b.head_max s in
    let lh : length b.head ≡ min b.head_max (length s) =
      ap length h.head ∙ length-take b.head_max s in
    let over : b.total - length b.head ≡ length rest = omega (arith, h.total) in
    let more : leb (length rest) 0 ≡ false = ground arith in
    rw (over, more, ring_tail_of_HoldsTail b rest (omega arith) h.tail, h.head)
      (sym (log_text_parts b.head_max b.tail_max s big))

-- The view of a buffer that has seen `s`.
render_of_Holds :
    (b : CappedBuffer) (s : Text) → Holds b s → render b ≡ log_text b.head_max b.tail_max s
render_of_Holds b s h = elim (dec_le (length s) b.head_max) [
  | yes small ↦
      render_short b s h small ∙ sym (log_text_whole b.head_max b.tail_max s (omega arith))
  | no big ↦ render_long b s h (omega arith)
]

write_all-Holds :
    (b : CappedBuffer) (s : Text) (ps : List Text)
    → Holds b s
    → Holds (write_all b ps) (s ++ concat ps)
unfolding write_all
write_all-Holds b s [] h = rw append-nil h
write_all-Holds b s (p ∷ ps) h =
    rw (← append_assoc s p (concat ps))
      (write_all-Holds (write b p) (s ++ p) ps (write-Holds b s p h))

new-Holds : (head_max tail_max : ℕ) → 0 < tail_max → Holds (new_capped_buffer head_max tail_max) []
unfolding new_capped_buffer
new-Holds head_max tail_max h = record {
  some_tail = h;
  total = refl;
  head = sym (take-nil head_max);
  tail = nothing refl refl refl (drop-nil head_max);
}

write_all_keeps :
    (b : CappedBuffer) (ps : List Text)
    → ((write_all b ps).head_max ≡ b.head_max) × ((write_all b ps).tail_max ≡ b.tail_max)
unfolding write_all
write_all_keeps b [] = (refl, refl)
write_all_keeps b (p ∷ ps) =
    let (h, t) = write_all_keeps (write b p) ps in
    let (h', t') = write_keeps b p in (h ∙ h', t ∙ t')

-- Whatever the pieces in which a process writes its output, the capture shows what the capped view
-- of a log file with the same bytes shows: all of it if it fits into the two caps, else its first
-- `head_max` bytes, the marker with the number of bytes dropped, and its last `tail_max` bytes.
-- The tail's cap is positive.
pub render-write_all :
    (head_max tail_max : ℕ) (ps : List Text)
    → 0 < tail_max
    → render (write_all (new_capped_buffer head_max tail_max) ps)
      ≡ log_text head_max tail_max (concat ps)
render-write_all head_max tail_max ps h =
    let b = write_all (new_capped_buffer head_max tail_max) ps in
    let (eh, et) = write_all_keeps (new_capped_buffer head_max tail_max) ps in
    render_of_Holds b (concat ps) (write_all-Holds _ [] ps (new-Holds head_max tail_max h))
    ∙ ap₂ (λ m n. log_text m n (concat ps)) (eh ∙ new_head) (et ∙ new_tail)
  where
    new_head : (new_capped_buffer head_max tail_max).head_max ≡ head_max
    new_head = unfold new_capped_buffer in refl

    new_tail : (new_capped_buffer head_max tail_max).tail_max ≡ tail_max
    new_tail = unfold new_capped_buffer in refl

length-ring_of_HoldsTail :
    (b : CappedBuffer) {rest : Text}
    → HoldsTail b.tail_max b.ring b.ring_pos b.ring_len rest
    → length b.ring ≤ b.tail_max
length-ring_of_HoldsTail b (nothing er ep el es) = omega (arith, ap length er)
length-ring_of_HoldsTail b (filled f) = omega (arith, f.sized)

-- However much is written, a capture holds at most `head_max` bytes of head and `tail_max` of ring.
-- The tail's cap is positive.
pub write_all_bounded :
    (head_max tail_max : ℕ) (ps : List Text)
    → 0 < tail_max
    → let b = write_all (new_capped_buffer head_max tail_max) ps in
      (length b.head ≤ head_max) × (length b.ring ≤ tail_max)
unfolding new_capped_buffer
write_all_bounded head_max tail_max ps h =
    let new = new_capped_buffer head_max tail_max in
    let b = write_all new ps in
    let k = write_all_keeps new ps in
    let v = write_all-Holds new [] ps (new-Holds head_max tail_max h) in
    (
      omega (arith, ap length v.head, length-take b.head_max (concat ps), k.0),
      omega (arith, length-ring_of_HoldsTail b v.tail, k.1),
    )
