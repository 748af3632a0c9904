-- ===== src/Service/Capture.antt =====
-- The capped output capture (cappedBuffer of internal/service/runner.go) and the capped log view
-- (logText of internal/service/jobs.go). Their theorems are in the modules below.
pub mod Ring
pub mod Refine
pub mod Tail
pub mod Render
use meme.Base.{
  ℕ, ◌+◌, ◌-◌, ◌%◌, ◌^◌, ◌*◌, min, List, [], ◌∷◌, ◌++◌, ltb, leb, if◌then◌else◌, length, take, drop,
  replicate, Text, codes, itoa,
}

-- `total` is an int64 in the source; 2^63 bytes of output are not modelled.
-- An empty `ring` is the nil slice.
pub record CappedBuffer : Type 0 where
  pub head_max : ℕ
  pub tail_max : ℕ
  pub head : Text
  pub ring : Text
  pub ring_pos : ℕ
  pub ring_len : ℕ
  pub total : ℕ

abbrev pub capture_head : ℕ
capture_head = 512 * 2 ^ 10

abbrev pub capture_tail : ℕ
capture_tail = 512 * 2 ^ 10

pub truncation_marker : ℕ → Text
truncation_marker dropped = codes "\n...[truncated " ++ (itoa dropped ++ codes " bytes]...\n")

pub new_capped_buffer : ℕ → ℕ → CappedBuffer
new_capped_buffer head_max tail_max = record {
  head_max = head_max;
  tail_max = tail_max;
  head = [];
  ring = [];
  ring_pos = 0;
  ring_len = 0;
  total = 0;
}

-- Go's `copy(dst, src)`: as many bytes as fit, the others of `dst` stay.
pub copy : Text → Text → Text
copy dst src = take (length dst) src ++ drop (length src) dst

-- `copy(dst[at:], src)`, written into `dst`
pub copy_at : Text → ℕ → Text → Text
copy_at dst at src = take at dst ++ copy (drop at dst) src

-- The part of `Write` below the allocation of the ring, for `p` behind the head.
pub write_ring : CappedBuffer → Text → CappedBuffer
write_ring b p =
    if leb b.tail_max (length p)
    then record b {
      ring = copy b.ring (drop (length p - b.tail_max) p);
      ring_pos = 0;
      ring_len = b.tail_max;
    }
    else let first = min (length b.ring - b.ring_pos) (length p) in
      record b {
        ring = copy (copy_at b.ring b.ring_pos p) (drop first p);
        ring_pos = (b.ring_pos + length p) % b.tail_max;
        ring_len = min (b.ring_len + length p) b.tail_max;
      }

-- `b.ring = make([]byte, b.tailMax)` at the first byte behind the head
pub allocate : CappedBuffer → CappedBuffer
allocate b = if leb (length b.ring) 0 then record b { ring = replicate b.tail_max 0 } else b

-- what `Write` does with the bytes that the head does not take
pub write_tail : CappedBuffer → Text → CappedBuffer
write_tail b [] = b
write_tail b (c ∷ p) = write_ring (allocate b) (c ∷ p)

-- `Write`: `room` is 0 where the source's difference is not positive.
pub write : CappedBuffer → Text → CappedBuffer
write b p =
    let room = b.head_max - length b.head in
    let counted = record b { total = b.total + length p } in
    if ltb 0 room
    then write_tail (record counted { head = b.head ++ take (min room (length p)) p })
        (drop (min room (length p)) p)
    else write_tail counted p

pub write_all : CappedBuffer → List Text → CappedBuffer
write_all b [] = b
write_all b (p ∷ ps) = write_all (write b p) ps

-- The retained tail, copied out of the ring. The index is never negative: `ring_len ≤ tail_max`.
pub ring_tail : CappedBuffer → Text
ring_tail b =
    let start = (b.ring_pos + b.tail_max - b.ring_len) % b.tail_max in
    let n = min b.ring_len (length (drop start b.ring)) in
    let tail = copy (replicate b.ring_len 0) (drop start b.ring) in
    take n tail ++ copy (drop n tail) (take (b.ring_len - n) b.ring)

-- `String`
pub render : CappedBuffer → Text
render b =
    let overflow = b.total - length b.head in
    let tail = ring_tail b in
    let dropped = overflow - length tail in
    if leb overflow 0
    then b.head
    else if leb dropped 0
    then b.head ++ tail
    else b.head ++ (truncation_marker dropped ++ tail)

-- `logText` of a log file with these bytes
pub log_text : ℕ → ℕ → Text → Text
log_text head_max tail_max file =
    let size = length file in
    let head = take head_max file in
    let tail = drop (size - tail_max) file in
    if leb size (head_max + tail_max)
    then file
    else head ++ (truncation_marker (size - (length head + length tail)) ++ tail)
