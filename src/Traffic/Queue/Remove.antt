-- ===== src/Traffic/Queue/Remove.antt =====
-- queue.go: `Remove` of container/heap takes out the packet at a place and leaves a heap.
use gki_pass.Base.{
  Bool, Bool-cases, List, ap, ap₂, arith, if-cases, if◌then◌else◌, inl, inr, leb, length,
  length-take, ltb, not, refl, subst, suc, sym, take, true, zero, ℕ, ℕ_discrete, ◌*◌, ◌+◌, ◌-◌, ◌/◌,
  ◌<◌, ◌==◌, ◌||◌, ◌∙◌, ◌≡◌, ◌≢◌, ◌≤◌,
}
use gki_pass.Base.Maps.{nat_eq, string_eq}
use gki_pass.Base.Int.{int_eq}
use gki_pass.Traffic.Queue.{Packet, at, child, down, heap_remove, less, swap, up}
use gki_pass.Traffic.Queue.Order.{
  IsHeap, NotLess, NotLess-trans, at-swap, length-swap, less-NotLess,
}
use gki_pass.Traffic.Queue.Down.{HeapBelow, child-BestChild, down-Settled}
use gki_pass.Traffic.Queue.Up.{HeapAbove, up-IsHeap}
use gki_pass.Traffic.Queue.Kept.{
  occurrences, occurrences-down, occurrences-swap, occurrences-take, occurrences-up, one_if,
}
use gki_pass.Traffic.Queue.First.{Whole, at-take, down-at}

-- `up` leaves what stands behind its place.
up-at :
    (rounds j m : ℕ) (ps : List Packet) → j < m → m < length ps → at (up rounds j ps) m ≡ at ps m
unfolding up
up-at zero j m ps h inside = refl
up-at (suc rounds) j m ps h inside =
    let i = (j - 1) / 2 in
    let same = length-swap i j ps in
    let moved = at-swap i j m ps (omega arith) (omega arith) in
    let rest = up-at rounds i m (swap i j ps) (omega arith) (omega (arith, same)) in
    let not_i : m ≢ i = λ f. absurd (omega (arith, f)) in
    let not_j : m ≢ j = λ f. absurd (omega (arith, f)) in ground (arith, moved, rest)

-- The order holds but around one place, whose children are not more urgent than what is above it.
abbrev pub HeapAround : ℕ → ℕ → List Packet → Type 0
HeapAround i n ps =
    ((k : ℕ) → 0 < k → k < n → k ≢ i → (k - 1) / 2 ≢ i → NotLess (at ps k) (at ps ((k - 1) / 2)))
    × ((k : ℕ) → 0 < i → 0 < k → k < n → (k - 1) / 2 ≡ i → NotLess (at ps k) (at ps ((i - 1) / 2)))

IsHeap-HeapAbove : (j n : ℕ) (ps : List Packet) → j < n → IsHeap n ps → HeapAbove j n ps
IsHeap-HeapAbove j n ps inside_j heap = (
  (λ k over inside other. heap k over inside),
  (λ k over_j over inside e.
      let held : NotLess (at ps k) (at ps j) =
        subst (λ m. NotLess (at ps k) (at ps m)) e (heap k over inside) in
      NotLess-trans (at ps k) (at ps j) (at ps ((j - 1) / 2)) held (heap j over_j inside_j)),
)

-- The end of `Remove`, after the swap.
abbrev pub settle : ℕ → ℕ → List Packet → List Packet
settle i n ps =
    if ltb i (down n i n ps).1 then (down n i n ps).0 else up (i + 1) i (down n i n ps).0

settle-IsHeap :
    (i n : ℕ) (ps : List Packet)
    → n ≤ length ps
    → i < n
    → HeapAround i n ps
    → IsHeap n (settle i n ps) × (length (settle i n ps) ≡ length ps)
unfolding down
settle-IsHeap i zero ps fits inside_i (order, bridge) = absurd (omega arith)
settle-IsHeap i (suc n) ps fits inside_i (order, bridge) =
    let j = child i (suc n) ps in
    let settled = (down (suc n) i (suc n) ps).0 in
    let Fine : List Packet → Type 0 = λ r. IsHeap (suc n) r × (length r ≡ length ps) in
    elim (Bool-cases (leb (suc n) (2 * i + 1) || not (less (at ps j) (at ps i)))) [
      | inl e ↦
          let stays : settle i (suc n) ps ≡ up (i + 1) i ps = ground arith in
          let above : HeapAbove i (suc n) ps = (
            (λ k over inside other. elim (ℕ_discrete ((k - 1) / 2) i) [
              | no f ↦ order k over inside other f
              | yes f ↦
                  let found = child-BestChild i (suc n) ps (omega arith) in
                  let calm : NotLess (at ps j) (at ps i) = ground arith in
                  subst (λ m. NotLess (at ps k) (at ps m)) (sym f)
                    (NotLess-trans (at ps k) (at ps j) (at ps i) (found.3 k over inside f) calm)
            ]),
            bridge,
          ) in
          subst Fine (sym stays) (up-IsHeap (i + 1) i (suc n) ps fits inside_i (omega arith) above)
      | inr e ↦
          let found = child-BestChild i (suc n) ps (ground arith) in
          let urgent : less (at ps j) (at ps i) ≡ true = ground arith in
          let below : HeapBelow i (suc n) ps = (
            (λ k over inside other. elim (ℕ_discrete k i) [
              | no f ↦ order k over inside f other
              | yes f ↦
                  let calm = less-NotLess (at ps j) (at ps i) urgent in
                  let over_i : 0 < i = omega (arith, f) in
                  let far = bridge j over_i (omega arith) found.0 found.1 in
                  subst (λ m. NotLess (at ps m) (at ps ((m - 1) / 2))) (sym f)
                    (NotLess-trans (at ps i) (at ps j) (at ps ((i - 1) / 2)) calm far)
            ]),
            bridge,
          ) in
          let (heap, kept) = down-Settled (suc n) i (suc n) ps fits (omega arith) below in
          let (again, same) =
            up-IsHeap (i + 1) i (suc n) settled (omega (arith, kept)) inside_i (omega arith)
              (IsHeap-HeapAbove i (suc n) settled inside_i heap) in
          if-cases Fine (ltb i (down (suc n) i (suc n) ps).1) (λ c. (heap, kept))
            (λ c. (again, same ∙ kept))
    ]

settle-at :
    (i n m : ℕ) (ps : List Packet)
    → n ≤ m
    → m < length ps
    → i < n
    → n ≤ length ps
    → length (down n i n ps).0 ≡ length ps
    → at (settle i n ps) m ≡ at ps m
settle-at i n m ps h inside before fits kept =
    let lower = down-at n i n m ps h inside before in
    let upper = up-at (i + 1) i m (down n i n ps).0 (omega arith) (omega (arith, kept)) in
    if-cases (λ (r : List Packet). at r m ≡ at ps m) (ltb i (down n i n ps).1) (λ c. lower)
      (λ c. upper ∙ lower)

occurrences-settle :
    (test : Packet → Bool) (i n : ℕ) (ps : List Packet)
    → i < n
    → n ≤ length ps
    → length (down n i n ps).0 ≡ length ps
    → occurrences test (settle i n ps) ≡ occurrences test ps
occurrences-settle test i n ps before fits kept =
    let lower = occurrences-down test n i n ps fits before in
    let upper = occurrences-up test (i + 1) i (down n i n ps).0 (omega (arith, kept)) in
    if-cases (λ (r : List Packet). occurrences test r ≡ occurrences test ps)
      (ltb i (down n i n ps).1) (λ c. lower) (λ c. upper ∙ lower)

length-down : (rounds i n : ℕ) (ps : List Packet) → length (down rounds i n ps).0 ≡ length ps
unfolding down
length-down zero i n ps = refl
length-down (suc rounds) i n ps =
    let j = child i n ps in
    let rest = length-down rounds j n (swap i j ps) in
    let same = length-swap i j ps in ground (arith, rest, same)

-- The packet of the place comes out, and what is left is a heap with the other packets.
abbrev pub Removed : ℕ → List Packet → List Packet × Packet → Type 0
Removed i ps (rest, p) =
    (p ≡ at ps i)
    × Whole rest
    × (length rest + 1 ≡ length ps)
    × ((test : Packet → Bool) → occurrences test rest + one_if (test p) ≡ occurrences test ps)

cut_off :
    (i n : ℕ) (ps fixed : List Packet)
    → length ps ≡ suc n
    → length fixed ≡ length ps
    → IsHeap n fixed
    → at fixed n ≡ at ps i
    → ((test : Packet → Bool) → occurrences test fixed ≡ occurrences test ps)
    → Removed i ps (take n fixed, at fixed n)
cut_off i n ps fixed long same heap out kept =
    let short : length (take n fixed) ≡ n = omega (arith, length-take n fixed, long, same) in
    (
      out,
      (λ k over inside.
          let small : k < n = omega (arith, short) in
          ap₂ less (at-take n k fixed small) (at-take n ((k - 1) / 2) fixed (omega arith))
          ∙ heap k over small),
      omega (arith, short),
      λ test.
          let split = occurrences-take test n fixed (same ∙ long) in
          let total = kept test in omega (arith, split, total),
    )

-- `Remove` of a place of a heap.
pub heap_remove-Removed :
    (i : ℕ) (ps : List Packet) → Whole ps → i < length ps → Removed i ps (heap_remove i ps)
unfolding heap_remove
heap_remove-Removed i ps heap inside =
    let n = length ps - 1 in
    let long : length ps ≡ suc n = omega arith in
    let swapped = swap i n ps in
    let same = length-swap i n ps in
    elim (ℕ_discrete n i) [
      | yes e ↦
          let result : heap_remove i ps ≡ (take n ps, at ps n) = ground arith in
          subst (Removed i ps) (sym result) (
            cut_off i n ps ps long refl (λ k over before. heap k over (omega arith)) (ap (at ps) e)
              (λ test. refl))
      | no e ↦
          let result : heap_remove i ps ≡ (take n (settle i n swapped), at (settle i n swapped) n) =
            ground arith in
          let moved : (k : ℕ)
              → at swapped k ≡ (if k == n then at ps i else if k == i then at ps n else at ps k) =
            λ k. at-swap i n k ps inside (omega arith) in
          let before : i < n = omega (arith, e) in
          let kept = length-down n i n swapped in
          let around : HeapAround i n swapped = (
            (λ k over in_n other up_other.
                let held = heap k over (omega arith) in
                let at_k = moved k in
                let at_up = moved ((k - 1) / 2) in
                let up_small : (k - 1) / 2 < n = omega arith in ground (arith, held, at_k, at_up)),
            (λ k over_i over in_n par.
                let held : NotLess (at ps k) (at ps i) =
                  subst (λ m. NotLess (at ps k) (at ps m)) par (heap k over (omega arith)) in
                let far =
                  NotLess-trans (at ps k) (at ps i) (at ps ((i - 1) / 2)) held
                    (heap i over_i inside) in
                let at_k = moved k in
                let at_up = moved ((i - 1) / 2) in
                let apart : k ≢ i = λ f. absurd (omega (arith, f)) in
                let up_apart : (i - 1) / 2 ≢ i = λ f. absurd (omega (arith, f)) in
                let up_small : (i - 1) / 2 < n = omega arith in ground (arith, far, at_k, at_up)),
          ) in
          let (fixed_heap, fixed_same) =
            settle-IsHeap i n swapped (omega (arith, same)) before around in
          let at_end = moved n in
          let out : at (settle i n swapped) n ≡ at ps i =
            settle-at i n n swapped (omega arith) (omega (arith, same)) before (omega (arith, same))
              kept
            ∙ ground (arith, at_end) in
          subst (Removed i ps) (sym result) (
            cut_off i n ps (settle i n swapped) long (fixed_same ∙ same) fixed_heap out (λ test.
              occurrences-settle test i n swapped before (omega (arith, same)) kept
              ∙ occurrences-swap test i n ps inside (omega arith)))
    ]
