-- ===== src/Multiplex/Ring/Refine.antt =====
-- `RingBuffer` implements a bounded queue: `contents` is the queue.
use gki_pass.Base.{
  List, [], add-zero, ap, ap₂, arith, dec_le, dec_lt, drop, false, get_or, inl, inr, length,
  length-replicate, ltb, min, none, refl, some, suc, sym, take, true, zero, ℕ, ◌%◌, ◌++◌, ◌+◌, ◌-◌,
  ◌<◌, ◌∙◌, ◌∷◌, ◌≡◌, ◌≢◌, ◌≤◌, ◌⊎◌,
}
use gki_pass.Multiplex.Ring.{
  RingBuffer, new_ring_buffer, put_bytes, read_ring, take_bytes, write_ring,
}
use gki_pass.Multiplex.Ring.Queue.{IsRing, contents, length-window, window, window-put}
use native.Mathlib.Nat.{mod-add-mod, mod-eq_of_lt}

-- A new buffer with room is an empty queue.
pub new-IsRing :
    (capacity : ℕ)
    → 0 < capacity
    → IsRing (new_ring_buffer capacity) × (contents (new_ring_buffer capacity) ≡ [])
unfolding new_ring_buffer contents window
new-IsRing capacity h =
    let l = length-replicate {A = ℕ} capacity 0 in
    (
      record {
        has_slots = omega (arith, l);
        start_inside = omega (arith, l);
        end_after = sym (mod-eq_of_lt (omega (arith, l)));
        size_fits = omega arith;
      },
      refl,
    )

write-room :
    (bs : List ℕ) (rb : RingBuffer)
    → IsRing rb
    → length bs + rb.size ≤ length rb.buf
    → let rb' = (write_ring bs rb).0 in
      IsRing rb'
      × (contents rb' ≡ contents rb ++ bs)
      × (length rb'.buf ≡ length rb.buf)
      × ((write_ring bs rb).1 ≡ true)
unfolding write_ring contents
write-room bs rb v room =
    let (held, last, same) =
      window-put bs rb.buf rb.start rb.size rb.end v.end_after v.start_inside (omega arith) in
    let e : ltb (length rb.buf) (length bs + rb.size) ≡ false = ground arith in
    rw e (
      record {
        has_slots = omega (arith, same, v.has_slots);
        start_inside = omega (arith, same, v.start_inside);
        end_after = rw same last;
        size_fits = omega (arith, same);
      },
      held,
      same,
      refl,
    )

window-shift :
    (buf : List ℕ) (s k j n : ℕ) → window buf ((s + k) % length buf) j n ≡ window buf s (k + j) n
unfolding window
window-shift buf s k j zero = refl
window-shift buf s k j (suc n) =
    ap₂ (λ i xs. get_or buf i 0 ∷ xs)
      (mod-add-mod (s + k) (length buf) j ∙ ap (λ i. i % length buf) (omega arith))
      (window-shift buf s k (j + 1) n ∙ ap (λ i. window buf s i n) (omega arith))

window-take : (buf : List ℕ) (s k n m : ℕ) → take m (window buf s k n) ≡ window buf s k (min m n)
unfolding window
window-take buf s k n zero = ap (window buf s k) (let e : 0 ≡ min 0 n = omega arith in e)
window-take buf s k zero (suc m) = let e : 0 ≡ min (suc m) 0 = omega arith in ap (window buf s k) e
window-take buf s k (suc n) (suc m) =
    let e : suc (min m n) ≡ min (suc m) (suc n) = omega arith in
    ap (◌∷◌ (get_or buf ((s + k) % length buf) 0)) (window-take buf s (k + 1) n m)
    ∙ ap (window buf s k) e

window-drop :
    (buf : List ℕ) (s k n m : ℕ)
    → drop m (window buf s k n) ≡ window buf s (min m n + k) (n - min m n)
unfolding window
window-drop buf s k n zero = ap₂ (window buf s) (omega arith) (omega arith)
window-drop buf s k zero (suc m) =
    let e : 0 ≡ 0 - min (suc m) 0 = omega arith in ap (window buf s (min (suc m) 0 + k)) e
window-drop buf s k (suc n) (suc m) =
    window-drop buf s (k + 1) n m ∙ ap₂ (window buf s) (omega arith) (omega arith)

take_bytes-window :
    (n : ℕ) (buf : List ℕ) (s : ℕ)
    → s < length buf
    → take_bytes n buf s ≡ (window buf s 0 n, (s + n) % length buf)
unfolding take_bytes window
take_bytes-window zero buf s h = ap (λ i. ([], i)) (sym (rw add-zero (mod-eq_of_lt h)))
take_bytes-window (suc n) buf s h =
    let ih = take_bytes-window n buf ((s + 1) % length buf) (omega arith) in
    let here : s ≡ (s + 0) % length buf = sym (rw add-zero (mod-eq_of_lt h)) in
    let next : ((s + 1) % length buf + n) % length buf ≡ (s + suc n) % length buf =
      mod-add-mod (s + 1) (length buf) n ∙ ap (λ i. i % length buf) (omega arith) in
    rw ih (ground (arith, here, next, window-shift buf s 1 0 n))

write-full :
    (bs : List ℕ) (rb : RingBuffer)
    → length rb.buf < length bs + rb.size
    → write_ring bs rb ≡ (rb, false)
unfolding write_ring
write-full bs rb h = ground arith

read-empty : (n : ℕ) (rb : RingBuffer) → rb.size ≡ 0 → read_ring n rb ≡ (rb, none)
unfolding read_ring
read-empty n rb h = ground arith

read-some :
    (n : ℕ) (rb : RingBuffer)
    → IsRing rb
    → 0 < rb.size
    → let m = min n rb.size in
      read_ring n rb ≡ (
        record rb { start = (rb.start + m) % length rb.buf; size = rb.size - m },
        some (window rb.buf rb.start 0 m),
      )
unfolding read_ring
read-some n rb v h =
    ground (arith, take_bytes-window (min n rb.size) rb.buf rb.start v.start_inside)

contents-empty : (rb : RingBuffer) → rb.size ≡ 0 → contents rb ≡ []
unfolding contents window
contents-empty rb h = ground arith

contents-some : (rb : RingBuffer) → 0 < rb.size → contents rb ≢ []
unfolding contents
contents-some rb h e =
    absurd (omega (arith, length-window rb.buf rb.start 0 rb.size, ap (length {A = ℕ}) e))

-- A write succeeds exactly when there is room for all bytes, which it then adds at the end, and
-- changes nothing otherwise; the buffer stays well-formed and keeps its capacity.
pub write-contents :
    (bs : List ℕ) (rb : RingBuffer)
    → IsRing rb
    → let (rb', done) = write_ring bs rb in
      IsRing rb'
      × (length rb'.buf ≡ length rb.buf)
      × (((length (contents rb) + length bs ≤ length rb.buf)
            × (done ≡ true)
            × (contents rb' ≡ contents rb ++ bs))
          ⊎ ((length rb.buf < length (contents rb) + length bs) × (done ≡ false) × (rb' ≡ rb)))
unfolding contents
write-contents bs rb v =
    let l = length-window rb.buf rb.start 0 rb.size in
    elim (dec_le (length bs + rb.size) (length rb.buf)) [
      | yes room ↦
          let (valid, held, same, done) = write-room bs rb v room in
          (valid, same, inl (omega (arith, l), done, held))
      | no full ↦
          let e = write-full bs rb (omega arith) in
          rw e (v, refl, inr (omega (arith, l), refl, refl))
    ]

-- A read of up to `n` bytes fails exactly when the buffer is empty, and then changes nothing;
-- otherwise it hands out the first `n` bytes, or all if there are fewer, and keeps the others; the
-- buffer stays well-formed and keeps its slots.
pub read-contents :
    (n : ℕ) (rb : RingBuffer)
    → IsRing rb
    → let (rb', got) = read_ring n rb in
      IsRing rb'
      × (rb'.buf ≡ rb.buf)
      × (((contents rb ≡ []) × (got ≡ none) × (rb' ≡ rb))
          ⊎ ((contents rb ≢ [])
              × (got ≡ some (take n (contents rb)))
              × (contents rb' ≡ drop n (contents rb))))
unfolding contents
read-contents n rb v = elim (dec_lt 0 rb.size) [
  | no empty ↦
      let none_left : rb.size ≡ 0 = omega arith in
      rw (read-empty n rb none_left) (v, refl, inl (contents-empty rb none_left, refl, refl))
  | yes some_left ↦ rw (read-some n rb v some_left) (
    record {
      has_slots = v.has_slots;
      start_inside = omega (arith, v.has_slots);
      end_after =
          v.end_after
          ∙ ap (λ i. i % length rb.buf)
              (let e : rb.start + rb.size ≡ rb.start + min n rb.size + (rb.size - min n rb.size) =
                  omega arith in
                e)
          ∙ sym (mod-add-mod (rb.start + min n rb.size) (length rb.buf) (rb.size - min n rb.size));
      size_fits = omega (arith, v.size_fits);
    },
    refl,
    inr (
      contents-some rb some_left,
      ap some (sym (window-take rb.buf rb.start 0 rb.size n)),
      window-shift rb.buf rb.start (min n rb.size) 0 (rb.size - min n rb.size)
          ∙ sym (window-drop rb.buf rb.start 0 rb.size n),
    ),
  )
]

pub length-contents : (rb : RingBuffer) → length (contents rb) ≡ rb.size
unfolding contents
length-contents rb = length-window rb.buf rb.start 0 rb.size

pub write-size :
    (bs : List ℕ) (rb : RingBuffer)
    → (write_ring bs rb).1 ≡ true
    → (write_ring bs rb).0.size ≡ rb.size + length bs
unfolding write_ring
write-size bs rb h = ground arith

pub read-size :
    (n : ℕ) (rb : RingBuffer) (bs : List ℕ)
    → IsRing rb
    → (read_ring n rb).1 ≡ some bs
    → ((read_ring n rb).0.size + length bs ≡ rb.size) × (length bs ≡ min n rb.size)
read-size n rb bs v h = elim (dec_lt 0 rb.size) [
  | no empty ↦ absurd (ground (arith, read-empty n rb))
  | yes p ↦
      let e = read-some n rb v p in
      let l = length-window rb.buf rb.start 0 (min n rb.size) in ground (arith, e, l)
]

pub write-nil : (rb : RingBuffer) → IsRing rb → write_ring [] rb ≡ (rb, true)
unfolding write_ring put_bytes
write-nil rb v = ground arith
