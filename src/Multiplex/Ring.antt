-- ===== src/Multiplex/Ring.antt =====
-- client/internal/multiplex/stream.go: `RingBuffer`. Its lock makes each operation atomic.
pub mod Queue
pub mod Refine
mod Tests
use gki_pass.Base.{
  Bool, List, Option, [], false, get_or, if◌then◌else◌, length, ltb, min, none, replicate, set,
  some, suc, true, zero, ℕ, ◌%◌, ◌+◌, ◌-◌, ◌==◌, ◌∷◌,
}

pub record RingBuffer : Type 0 where
  pub buf : List ℕ
  pub start : ℕ
  pub end : ℕ
  pub size : ℕ

unfoldable pub new_ring_buffer : ℕ → RingBuffer
new_ring_buffer capacity = record { buf = replicate capacity 0; start = 0; end = 0; size = 0 }

-- The loop of `Write`: the slots, and the index after the last byte.
unfoldable pub put_bytes : List ℕ → List ℕ → ℕ → List ℕ × ℕ
put_bytes [] buf end = (buf, end)
put_bytes (b ∷ bs) buf end = put_bytes bs (set buf end b) ((end + 1) % length buf)

stored : RingBuffer → ℕ → List ℕ × ℕ → RingBuffer
stored rb n (buf, end) = record rb { buf = buf; end = end; size = rb.size + n }

-- `Write`: the buffer, and whether there was room. `dataLen > len(rb.buf) - rb.size`, as integers.
unfoldable pub write_ring : List ℕ → RingBuffer → RingBuffer × Bool
unfolding stored
write_ring bs rb =
    if ltb (length rb.buf) (length bs + rb.size)
    then (rb, false)
    else (stored rb (length bs) (put_bytes bs rb.buf rb.end), true)

-- The loop of `Read`: the bytes taken, and the index of the next one.
unfoldable pub take_bytes : ℕ → List ℕ → ℕ → List ℕ × ℕ
take_bytes zero buf start = ([], start)
take_bytes (suc n) buf start =
    let (bs, next) = take_bytes n buf ((start + 1) % length buf) in (get_or buf start 0 ∷ bs, next)

taken : RingBuffer → ℕ → List ℕ × ℕ → RingBuffer × List ℕ
taken rb n (bs, start) = (record rb { start = start; size = rb.size - n }, bs)

-- `Read` into a slice of `n` bytes: the bytes copied, or `none` when the buffer is empty.
unfoldable pub read_ring : ℕ → RingBuffer → RingBuffer × Option (List ℕ)
unfolding taken
read_ring n rb =
    if rb.size == 0
    then (rb, none)
    else (let (rb', bs) = taken rb (min n rb.size) (take_bytes (min n rb.size) rb.buf rb.start) in
        (rb', some bs))
