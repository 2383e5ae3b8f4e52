-- ===== src/Traffic/Queue/Kept.antt =====
-- queue.go: the functions of the heap lose and add no packet.
use gki_pass.Base.{
  Bool, Bool-cases, List, [], ap, arith, if◌then◌else◌, inl, inr, leb, length, length-set, not,
  refl, set, subst, suc, take, zero, ℕ, ℕ_discrete, ◌*◌, ◌++◌, ◌+◌, ◌-◌, ◌/◌, ◌<◌, ◌||◌, ◌∷◌, ◌≡◌,
  ◌≢◌, ◌≤◌,
}
use gki_pass.Base.Maps.{nat_eq, string_eq}
use gki_pass.Base.Int.{int_eq}
use gki_pass.Traffic.Queue.{Packet, at, child, down, less, swap, up}
use gki_pass.Traffic.Queue.Order.{length-swap}

-- How many packets pass a test.
abbrev pub occurrences : (Packet → Bool) → List Packet → ℕ
occurrences test [] = 0
occurrences test (p ∷ ps) = (if test p then 1 else 0) + occurrences test ps

abbrev pub one_if : Bool → ℕ
one_if b = if b then 1 else 0

pub occurrences-append :
    (test : Packet → Bool) (ps qs : List Packet)
    → occurrences test (ps ++ qs) ≡ occurrences test ps + occurrences test qs
occurrences-append test [] qs = omega arith
occurrences-append test (p ∷ ps) qs = omega (arith, occurrences-append test ps qs)

occurrences-set :
    (test : Packet → Bool) (ps : List Packet) (i : ℕ) (p : Packet)
    → i < length ps
    → occurrences test (set ps i p) + one_if (test (at ps i))
      ≡ occurrences test ps + one_if (test p)
occurrences-set test [] i p h = absurd (omega arith)
occurrences-set test (q ∷ ps) zero p h = omega arith
occurrences-set test (q ∷ ps) (suc i) p h = omega (arith, occurrences-set test ps i p (omega arith))

at-set_other : (ps : List Packet) (i j : ℕ) (p : Packet) → i ≢ j → at (set ps i p) j ≡ at ps j
at-set_other [] i j p h = refl
at-set_other (q ∷ ps) zero zero p h = absurd (h refl)
at-set_other (q ∷ ps) zero (suc j) p h = refl
at-set_other (q ∷ ps) (suc i) zero p h = refl
at-set_other (q ∷ ps) (suc i) (suc j) p h = at-set_other ps i j p (λ e. h (ap suc e))

at-set_self : (ps : List Packet) (i : ℕ) → at (set ps i (at ps i)) i ≡ at ps i
at-set_self [] i = refl
at-set_self (q ∷ ps) zero = refl
at-set_self (q ∷ ps) (suc i) = at-set_self ps i

pub occurrences-swap :
    (test : Packet → Bool) (i j : ℕ) (ps : List Packet)
    → i < length ps
    → j < length ps
    → occurrences test (swap i j ps) ≡ occurrences test ps
unfolding swap
occurrences-swap test i j ps hi hj =
    let inner = occurrences-set test ps i (at ps j) hi in
    let half = set ps i (at ps j) in
    let outer = occurrences-set test half j (at ps i) (omega (arith, length-set ps i (at ps j))) in
    let there : one_if (test (at half j)) ≡ one_if (test (at ps j)) =
      ap (λ p. one_if (test p))
        (elim (ℕ_discrete i j) [
          | yes e ↦ subst (λ k. at (set ps i (at ps k)) k ≡ at ps k) e (at-set_self ps i)
          | no e ↦ at-set_other ps i j (at ps j) e
        ]) in
    omega (arith, inner, outer, there)

pub occurrences-down :
    (test : Packet → Bool) (rounds i n : ℕ) (ps : List Packet)
    → n ≤ length ps
    → i < n
    → occurrences test (down rounds i n ps).0 ≡ occurrences test ps
unfolding down child
occurrences-down test zero i n ps h k = refl
occurrences-down test (suc rounds) i n ps h k =
    let j = child i n ps in
    elim (Bool-cases (leb n (2 * i + 1) || not (less (at ps j) (at ps i)))) [
      | inl e ↦ ground arith
      | inr e ↦
          let inside : j < n = ground arith in
          let same = length-swap i j ps in
          let swapped = occurrences-swap test i j ps (omega arith) (omega arith) in
          let rest = occurrences-down test rounds j n (swap i j ps) (omega (arith, same)) inside in
          ground (arith, swapped, rest)
    ]

pub occurrences-up :
    (test : Packet → Bool) (rounds j : ℕ) (ps : List Packet)
    → j < length ps
    → occurrences test (up rounds j ps) ≡ occurrences test ps
unfolding up
occurrences-up test zero j ps h = refl
occurrences-up test (suc rounds) j ps h =
    let i = (j - 1) / 2 in
    let same = length-swap i j ps in
    let swapped = occurrences-swap test i j ps (omega arith) h in
    let rest = occurrences-up test rounds i (swap i j ps) (omega (arith, same)) in
    ground (arith, swapped, rest)

pub occurrences-take :
    (test : Packet → Bool) (n : ℕ) (ps : List Packet)
    → length ps ≡ suc n
    → occurrences test (take n ps) + one_if (test (at ps n)) ≡ occurrences test ps
occurrences-take test n [] h = absurd (omega arith)
occurrences-take test zero (p ∷ []) h = omega arith
occurrences-take test zero (p ∷ q ∷ ps) h = absurd (omega arith)
occurrences-take test (suc n) (p ∷ ps) h = omega (arith, occurrences-take test n ps (omega arith))
