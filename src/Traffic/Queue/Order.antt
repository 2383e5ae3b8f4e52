-- ===== src/Traffic/Queue/Order.antt =====
-- queue.go: the order of packets, and the heap that it makes.
use gki_pass.Base.{
  List, [], arith, false, if◌then◌else◌, length, length-set, refl, set, suc, true, zero, ℕ, ◌+◌,
  ◌-◌, ◌/◌, ◌<◌, ◌==◌, ◌∙◌, ◌∷◌, ◌≡◌,
}
use gki_pass.Base.Maps.{nat_eq, string_eq}
use gki_pass.Base.Int.{int_eq}
use gki_pass.Traffic.Queue.{Packet, at, less, swap}

-- The first packet is not more urgent than the second.
abbrev pub NotLess : Packet → Packet → Type 0
NotLess p q = less p q ≡ false

pub NotLess-trans : (p q r : Packet) → NotLess p q → NotLess q r → NotLess p r
unfolding less
NotLess-trans p q r h k = ground (arith)

pub NotLess-refl : (p : Packet) → NotLess p p
unfolding less
NotLess-refl p = ground arith

pub less-NotLess : (p q : Packet) → less p q ≡ true → NotLess q p
unfolding less
less-NotLess p q h = ground arith

get_or-set :
    (ps : List Packet) (i k : ℕ) (p : Packet)
    → i < length ps
    → at (set ps i p) k ≡ (if k == i then p else at ps k)
get_or-set [] i k p h = absurd (omega arith)
get_or-set (q ∷ ps) zero zero p h = refl
get_or-set (q ∷ ps) zero (suc k) p h = ground arith
get_or-set (q ∷ ps) (suc i) zero p h = ground arith
get_or-set (q ∷ ps) (suc i) (suc k) p h = ground (arith, get_or-set ps i k p)

pub length-swap : (i j : ℕ) (ps : List Packet) → length (swap i j ps) ≡ length ps
unfolding swap
length-swap i j ps = length-set (set ps i (at ps j)) j (at ps i) ∙ length-set ps i (at ps j)

pub at-swap :
    (i j k : ℕ) (ps : List Packet)
    → i < length ps
    → j < length ps
    → at (swap i j ps) k ≡ (if k == j then at ps i else if k == i then at ps j else at ps k)
unfolding swap
at-swap i j k ps hi hj =
    let outer =
      get_or-set (set ps i (at ps j)) j k (at ps i) (omega (arith, length-set ps i (at ps j))) in
    let inner = get_or-set ps i k (at ps j) hi in ground (arith, outer, inner)

-- Below the number, no packet is more urgent than the one above it in the tree.
abbrev pub IsHeap : ℕ → List Packet → Type 0
IsHeap n ps = (k : ℕ) → 0 < k → k < n → NotLess (at ps k) (at ps ((k - 1) / 2))

-- The packet at the top of a heap is a most urgent one.
pub IsHeap-top :
    (n : ℕ) (ps : List Packet) → IsHeap n ps → (k : ℕ) → k < n → NotLess (at ps k) (at ps 0)
IsHeap-top n ps heap k h = climb (k + 1) k (omega arith) h
  where
    climb : (rounds k : ℕ) → k < rounds → k < n → NotLess (at ps k) (at ps 0)
    climb zero k r h = absurd (omega arith)
    climb (suc rounds) zero r h = NotLess-refl (at ps 0)
    climb (suc rounds) (suc k) r h =
        let above = (suc k - 1) / 2 in
        NotLess-trans (at ps (suc k)) (at ps above) (at ps 0) (heap (suc k) (omega arith) h)
          (climb rounds above (omega arith) (omega arith))
