-- ===== src/Multiplex/Ring/Queue.antt =====
-- `RingBuffer` is a bounded queue of bytes.
use gki_pass.Base.{
  List, [], add-one, add-zero, ap, append-nil, append_assoc, ap₂, arith, get_or, length, length-set,
  refl, set, suc, sym, zero, ℕ, ◌%◌, ◌++◌, ◌+◌, ◌<◌, ◌∙◌, ◌∷◌, ◌≡◌, ◌≢◌, ◌≤◌,
}
use gki_pass.Multiplex.Ring.{RingBuffer, put_bytes}
use native.Mathlib.Nat.{mod-add-mod}

-- `n` bytes from place `k` after the start on.
unfoldable pub window : List ℕ → ℕ → ℕ → ℕ → List ℕ
window buf s k zero = []
window buf s k (suc n) = get_or buf ((s + k) % length buf) 0 ∷ window buf s (k + 1) n

-- What the buffer holds, oldest first.
unfoldable pub contents : RingBuffer → List ℕ
contents rb = window rb.buf rb.start 0 rb.size

pub record IsRing (rb : RingBuffer) : Type 0 where
  pub has_slots : 0 < length rb.buf
  pub start_inside : rb.start < length rb.buf
  pub end_after : rb.end ≡ (rb.start + rb.size) % length rb.buf
  pub size_fits : rb.size ≤ length rb.buf

pub length-window : (buf : List ℕ) (s k n : ℕ) → length (window buf s k n) ≡ n
unfolding window
length-window buf s k zero = refl
length-window buf s k (suc n) = ap suc (length-window buf s (k + 1) n)

slots_differ : (s k m l : ℕ) → s < l → k < m → m < l → (s + k) % l ≢ (s + m) % l
slots_differ s k m l h p q = grind arith

get_or-set_self : (xs : List ℕ) (i v : ℕ) → i < length xs → get_or (set xs i v) i 0 ≡ v
get_or-set_self [] i v h = absurd (omega arith)
get_or-set_self (x ∷ xs) zero v h = refl
get_or-set_self (x ∷ xs) (suc i) v h = get_or-set_self xs i v (omega arith)

get_or-set_ne : (xs : List ℕ) (i j v : ℕ) → j ≢ i → get_or (set xs i v) j 0 ≡ get_or xs j 0
get_or-set_ne [] i j v h = refl
get_or-set_ne (x ∷ xs) zero zero v h = absurd (h refl)
get_or-set_ne (x ∷ xs) zero (suc j) v h = refl
get_or-set_ne (x ∷ xs) (suc i) zero v h = refl
get_or-set_ne (x ∷ xs) (suc i) (suc j) v h = get_or-set_ne xs i j v (λ e. h (ap suc e))

window-set :
    (buf : List ℕ) (s k n m v : ℕ)
    → s < length buf
    → k + n ≤ m
    → m < length buf
    → window (set buf ((s + m) % length buf) v) s k n ≡ window buf s k n
unfolding window
window-set buf s k zero m v h p q = refl
window-set buf s k (suc n) m v h p q =
    let l = length buf in
    ground (
      arith,
      length-set buf ((s + m) % l) v,
      get_or-set_ne buf ((s + m) % l) ((s + k) % l) v (slots_differ s k m l h (omega arith) q),
      window-set buf s (k + 1) n m v h (omega arith) q,
    )

window-snoc :
    (buf : List ℕ) (s k n : ℕ)
    → window buf s k (suc n) ≡ window buf s k n ++ get_or buf ((s + (k + n)) % length buf) 0 ∷ []
unfolding window
window-snoc buf s k zero = ap (λ i. get_or buf ((s + i) % length buf) 0 ∷ []) (omega arith)
window-snoc buf s k (suc n) = ap (◌∷◌ (get_or buf ((s + k) % length buf) 0)) (
    window-snoc buf s (k + 1) n
    ∙ ap (λ i. window buf s (k + 1) n ++ get_or buf ((s + i) % length buf) 0 ∷ []) (omega arith))

-- The next free place is the one after it, modulo the length.
pub next_slot : (s n l : ℕ) → ((s + n) % l + 1) % l ≡ (s + (n + 1)) % l
next_slot s n l = mod-add-mod (s + n) l 1 ∙ ap (λ i. i % l) (omega arith)

-- One byte put at the end of the window.
window-put_one :
    (buf : List ℕ) (s n b : ℕ)
    → s < length buf
    → n < length buf
    → window (set buf ((s + n) % length buf) b) s 0 (n + 1) ≡ window buf s 0 n ++ b ∷ []
window-put_one buf s n b h p =
    let l = length buf in
    let i = (s + n) % l in
    let buf' = set buf i b in
    let same : length buf' ≡ l = length-set buf i b in
    let slot : (s + (0 + n)) % length buf' ≡ i = ground (arith, same) in
    rw add-one (
      window-snoc buf' s 0 n
      ∙ ap₂ (λ xs j. xs ++ get_or buf' j 0 ∷ []) (window-set buf s 0 n n b h (omega arith) p) slot
      ∙ ap (λ x. window buf s 0 n ++ x ∷ []) (get_or-set_self buf i b (omega arith)))

pub window-put :
    (bs buf : List ℕ) (s n e : ℕ)
    → e ≡ (s + n) % length buf
    → s < length buf
    → n + length bs ≤ length buf
    → let r = put_bytes bs buf e in
      (window r.0 s 0 (n + length bs) ≡ window buf s 0 n ++ bs)
      × (r.1 ≡ (s + (n + length bs)) % length buf)
      × (length r.0 ≡ length buf)
unfolding put_bytes
window-put [] buf s n e at h p =
    (rw add-zero (sym (append-nil (window buf s 0 n))), rw add-zero at, refl)
window-put (b ∷ bs) buf s n e at h p =
    let buf' = set buf e b in
    let l : length buf' ≡ length buf = length-set buf e b in
    let one : window buf' s 0 (n + 1) ≡ window buf s 0 n ++ b ∷ [] =
      rw at (window-put_one buf s n b h (omega arith)) in
    let next : (e + 1) % length buf ≡ (s + (n + 1)) % length buf' =
      rw (l, at) (next_slot s n (length buf)) in
    let (held, last, size) =
      window-put bs buf' s (n + 1) ((e + 1) % length buf) next (omega (arith, l))
        (omega (arith, l)) in
    let count : n + suc (length bs) ≡ n + 1 + length bs = omega arith in
    (
      rw count (held ∙ rw one (append_assoc (window buf s 0 n) (b ∷ []) bs)),
      rw (count, ← l) last,
      size ∙ l,
    )
