-- ===== src/Traffic/Queue/Up.antt =====
-- queue.go: `up` of container/heap restores the order above a place.
use gki_pass.Base.{
  Bool-cases, List, arith, if◌then◌else◌, inl, inr, length, not, refl, subst, suc, sym, true, zero,
  ℕ, ℕ_discrete, ◌-◌, ◌/◌, ◌<◌, ◌==◌, ◌||◌, ◌∙◌, ◌≡◌, ◌≢◌, ◌≤◌,
}
use gki_pass.Base.Maps.{nat_eq, string_eq}
use gki_pass.Base.Int.{int_eq}
use gki_pass.Traffic.Queue.{Packet, at, less, swap, up}
use gki_pass.Traffic.Queue.Order.{
  IsHeap, NotLess, NotLess-trans, at-swap, length-swap, less-NotLess,
}

-- The order holds but at one place, whose children are not more urgent than what is above it.
abbrev pub HeapAbove : ℕ → ℕ → List Packet → Type 0
HeapAbove j n ps =
    ((k : ℕ) → 0 < k → k < n → k ≢ j → NotLess (at ps k) (at ps ((k - 1) / 2)))
    × ((k : ℕ) → 0 < j → 0 < k → k < n → (k - 1) / 2 ≡ j → NotLess (at ps k) (at ps ((j - 1) / 2)))

HeapAbove-swap :
    (i j n : ℕ) (ps : List Packet)
    → n ≤ length ps
    → HeapAbove j n ps
    → j < n
    → i ≡ (j - 1) / 2
    → i < j
    → less (at ps j) (at ps i) ≡ true
    → HeapAbove i n (swap i j ps)
HeapAbove-swap i j n ps fits (order, bridge) hj parent under h = (above, across)
  where
    moved :
        (k : ℕ)
        → at (swap i j ps) k ≡ (if k == j then at ps i else if k == i then at ps j else at ps k)
    moved k = at-swap i j k ps (omega arith) (omega arith)

    above :
        (k : ℕ)
        → 0 < k
        → k < n
        → k ≢ i
        → NotLess (at (swap i j ps) k) (at (swap i j ps) ((k - 1) / 2))
    above k over inside other =
        let up_k = (k - 1) / 2 in
        let at_k = moved k in
        let at_up = moved up_k in
        let calm = less-NotLess (at ps j) (at ps i) h in
        elim (ℕ_discrete k j) [
          | yes e ↦ let up_i : up_k ≡ i = omega arith in ground (arith, at_k, at_up, calm)
          | no e ↦
              let held = order k over inside e in
              elim (ℕ_discrete up_k j) [
                | yes f ↦
                    let far = bridge k (omega arith) over inside f in
                    let far2 : NotLess (at ps k) (at ps i) =
                      subst (λ m. NotLess (at ps k) (at ps m)) (sym parent) far in
                    ground (arith, at_k, at_up, far2)
                | no f ↦ elim (ℕ_discrete up_k i) [
                  | yes g ↦
                      let held2 : NotLess (at ps k) (at ps i) =
                        subst (λ m. NotLess (at ps k) (at ps m)) g held in
                      let far = NotLess-trans (at ps k) (at ps i) (at ps j) held2 calm in
                      ground (arith, at_k, at_up, far)
                  | no g ↦ ground (arith, at_k, at_up, held)
                ]
              ]
        ]

    across :
        (k : ℕ)
        → 0 < i
        → 0 < k
        → k < n
        → (k - 1) / 2 ≡ i
        → NotLess (at (swap i j ps) k) (at (swap i j ps) ((i - 1) / 2))
    across k over_i over inside e =
        let at_k = moved k in
        let at_up = moved ((i - 1) / 2) in
        let top = order i over_i (omega arith) (λ f. absurd (omega (arith, f))) in
        let not_j : (i - 1) / 2 ≢ j = λ f. absurd (omega (arith, f)) in
        let not_i : (i - 1) / 2 ≢ i = λ f. absurd (omega (arith, f)) in
        let apart : k ≢ i = λ f. absurd (omega (arith, f)) in
        elim (ℕ_discrete k j) [
          | yes f ↦ ground (arith, at_k, at_up, top)
          | no f ↦
              let held = order k over inside f in
              let held2 : NotLess (at ps k) (at ps i) =
                subst (λ m. NotLess (at ps k) (at ps m)) e held in
              let far = NotLess-trans (at ps k) (at ps i) (at ps ((i - 1) / 2)) held2 top in
              ground (arith, at_k, at_up, far)
        ]

-- `up` moves a place's packet to where it belongs.
pub up-IsHeap :
    (rounds j n : ℕ) (ps : List Packet)
    → n ≤ length ps
    → j < n
    → j < rounds
    → HeapAbove j n ps
    → IsHeap n (up rounds j ps) × (length (up rounds j ps) ≡ length ps)
unfolding up
up-IsHeap zero j n ps fits hj enough ordered = absurd (omega arith)
up-IsHeap (suc rounds) j n ps fits hj enough (order, bridge) =
    let i = (j - 1) / 2 in
    let next = swap i j ps in
    let result = up (suc rounds) j ps in
    elim (Bool-cases (i == j || not (less (at ps j) (at ps i)))) [
      | inl e ↦
          let stays : result ≡ ps = ground arith in
          subst (λ r. IsHeap n r × (length r ≡ length ps)) (sym stays)
            (
              (λ k over inside. elim (ℕ_discrete k j) [
                | no f ↦ order k over inside f
                | yes f ↦
                    let apart : i ≢ j = λ g. absurd (omega (arith, g, f, over)) in
                    let calm : NotLess (at ps j) (at ps i) = ground arith in
                    subst (λ m. NotLess (at ps m) (at ps ((m - 1) / 2))) (sym f) calm
              ]),
              refl,
            )
      | inr e ↦
          let goes : result ≡ up rounds i next = ground arith in
          let apart : i ≢ j = ground arith in
          let same = length-swap i j ps in
          let ordered =
            HeapAbove-swap i j n ps fits (order, bridge) hj refl (omega arith) (ground arith) in
          let (heap, kept) =
            up-IsHeap rounds i n next (omega (arith, same)) (omega arith) (omega arith) ordered in
          subst (λ r. IsHeap n r × (length r ≡ length ps)) (sym goes) (heap, kept ∙ same)
    ]
