-- ===== src/Service/Capture/Tail.antt =====
-- The tail that `String` copies out of the ring (internal/service/runner.go).
use native.Mathlib.Decide.{dec_le}
use native.Mathlib.Nat.{mod-eq_of_lt}
use meme.Base.{
  ℕ, ◌+◌, ◌-◌, ◌%◌, ◌<◌, ◌≤◌, min, ◌≡◌, sym, ap, ◌∙◌, ◌++◌, append-nil, arith, length, take, drop,
  replicate, Text, length-take, length-drop, length-replicate, take_all, drop_all, take-append_le,
  drop-append_le, drop-append_ge, drop-drop, drop-take,
}
use meme.Service.Capture.{CappedBuffer, copy, ring_tail}
use meme.Service.Capture.Ring.{unroll, copy_all, copy_long, copy_short, copy-nil, mod_wrap}
use meme.Service.Capture.Refine.{Filled}

-- The retained tail where its bytes lie before the position, and where they lie on both sides.
tail_before :
    (ring : Text) (pos len t start : ℕ)
    → length ring ≡ t
    → pos < t
    → len ≤ pos
    → start ≡ pos - len
    → let n = min len (length (drop start ring)) in
      let tail = copy (replicate len 0) (drop start ring) in
      take n tail ++ copy (drop n tail) (take (len - n) ring) ≡ drop (t - len) (unroll ring pos)
tail_before ring pos len t start lr hp hl e =
    let ld : length (drop start ring) ≡ t - start = omega (arith, length-drop start ring) in
    let lz : length (replicate {A = ℕ} len 0) ≡ len = length-replicate len 0 in
    let m : min len (length (drop start ring)) ≡ len = omega arith in
    let none_left : len - len ≡ 0 = omega arith in
    let part : copy (replicate len 0) (drop start ring) ≡ take len (drop start ring) =
      copy_long (replicate len 0) (drop start ring) (omega arith)
      ∙ ap (λ k. take k (drop start ring)) lz in
    let lp : length (take len (drop start ring)) ≡ len =
      omega (arith, length-take len (drop start ring)) in
    let ly : length (drop pos ring) ≤ t - len = omega (arith, length-drop pos ring) in
    let k1 : t - len - length (drop pos ring) ≡ pos - len = omega (arith, length-drop pos ring) in
    let k2 : pos - (pos - len) ≡ len = omega arith in
    rw (
      m,
      part,
      take_all len (take len (drop start ring)) (omega arith),
      none_left,
      copy-nil (drop len (take len (drop start ring))),
      drop_all len (take len (drop start ring)) (omega arith),
      append-nil (take len (drop start ring)),
      drop-append_ge (t - len) (drop pos ring) (take pos ring) ly,
      k1,
      drop-take (pos - len) pos ring,
      k2,
      e,
    )

tail_both :
    (ring : Text) (pos len t start : ℕ)
    → length ring ≡ t
    → pos < len
    → len ≤ t
    → start ≡ pos + t - len
    → let n = min len (length (drop start ring)) in
      let tail = copy (replicate len 0) (drop start ring) in
      take n tail ++ copy (drop n tail) (take (len - n) ring) ≡ drop (t - len) (unroll ring pos)
tail_both ring pos len t start lr hp hl e =
    let old = drop start ring in
    let ld : length (drop start ring) ≡ len - pos = omega (arith, length-drop start ring) in
    let lz : length (replicate {A = ℕ} len 0) ≡ len = length-replicate len 0 in
    let m : min len (length (drop start ring)) ≡ length (drop start ring) = omega arith in
    let left : len - length (drop start ring) ≡ pos = omega arith in
    let rest = drop (length (drop start ring)) (replicate {A = ℕ} len 0) in
    let lrest : length rest ≡ pos =
      omega (arith, length-drop (length (drop start ring)) (replicate {A = ℕ} len 0)) in
    let ltake : length (take pos ring) ≡ pos = omega (arith, length-take pos ring) in
    let part : copy (replicate len 0) (drop start ring) ≡ old ++ rest =
      copy_short (replicate len 0) (drop start ring) (omega arith) in
    let fits : t - len ≤ length (drop pos ring) = omega (arith, length-drop pos ring) in
    let k : pos + (t - len) ≡ start = omega arith in
    rw (
      m,
      part,
      take-append_le (length (drop start ring)) old rest (omega arith),
      take_all (length (drop start ring)) old (omega arith),
      drop-append_le (length (drop start ring)) old rest (omega arith),
      drop_all (length (drop start ring)) old (omega arith),
      left,
      copy_all rest (take pos ring) (lrest ∙ sym ltake),
      drop-append_le (t - len) (drop pos ring) (take pos ring) fits,
      drop-drop (t - len) pos ring,
      k,
    )

-- The tail that `String` copies out of a filled ring: the newest bytes, as many as it holds.
pub ring_tail_newest :
    (b : CappedBuffer) (rest : Text)
    → Filled b.tail_max b.ring b.ring_pos b.ring_len rest
    → ring_tail b ≡ drop (b.tail_max - b.ring_len) (unroll b.ring b.ring_pos)
unfolding ring_tail
ring_tail_newest b rest f = elim (dec_le b.ring_len b.ring_pos) [
  | yes h ↦
      tail_before b.ring b.ring_pos b.ring_len b.tail_max
        ((b.ring_pos + b.tail_max - b.ring_len) % b.tail_max) f.sized f.inside h
        (mod_wrap (b.ring_pos + b.tail_max - b.ring_len) b.tail_max (omega arith)
            (omega (arith, f.inside))
          ∙ omega (arith, f.counted))
  | no h ↦
      tail_both b.ring b.ring_pos b.ring_len b.tail_max
        ((b.ring_pos + b.tail_max - b.ring_len) % b.tail_max) f.sized (omega arith)
        (omega (arith, f.counted)) (mod-eq_of_lt (omega (arith, f.inside)))
]

-- Its bytes are the last of those behind the head.
pub ring_tail-eq-drop :
    (b : CappedBuffer) (rest : Text)
    → Filled b.tail_max b.ring b.ring_pos b.ring_len rest
    → ring_tail b ≡ drop (length rest - b.tail_max) rest
ring_tail-eq-drop b rest f =
    let z : Text = replicate b.tail_max 0 in
    let lz : length z ≡ b.tail_max = length-replicate b.tail_max 0 in
    let k : length rest + (b.tail_max - b.ring_len) - length z ≡ length rest - b.tail_max =
      omega (arith, f.counted) in
    let ge : length z ≤ length rest + (b.tail_max - b.ring_len) = omega (arith, f.counted) in
    ring_tail_newest b rest f
    ∙ ap (drop (b.tail_max - b.ring_len)) f.newest
    ∙ drop-drop (b.tail_max - b.ring_len) (length rest) (z ++ rest)
    ∙ drop-append_ge (length rest + (b.tail_max - b.ring_len)) z rest ge
    ∙ ap (λ n. drop n rest) k
