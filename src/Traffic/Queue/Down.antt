-- ===== src/Traffic/Queue/Down.antt =====
-- queue.go: `down` of container/heap restores the order below a place.
use gki_pass.Base.{
  Bool-cases, List, arith, if◌then◌else◌, inl, inr, leb, length, ltb, not, refl, subst, suc, sym,
  true, zero, ℕ, ℕ_discrete, ◌&&◌, ◌*◌, ◌+◌, ◌-◌, ◌/◌, ◌<◌, ◌==◌, ◌||◌, ◌∙◌, ◌≡◌, ◌≢◌, ◌≤◌,
}
use gki_pass.Base.Maps.{nat_eq, string_eq}
use gki_pass.Base.Int.{int_eq}
use gki_pass.Traffic.Queue.{Packet, at, child, down, less, swap}
use gki_pass.Traffic.Queue.Order.{
  IsHeap, NotLess, NotLess-refl, NotLess-trans, at-swap, length-swap, less-NotLess,
}

-- The order holds but at the children of one place, which are not more urgent than what is above
-- that place.
abbrev pub HeapBelow : ℕ → ℕ → List Packet → Type 0
HeapBelow i n ps =
    ((k : ℕ) → 0 < k → k < n → (k - 1) / 2 ≢ i → NotLess (at ps k) (at ps ((k - 1) / 2)))
    × ((k : ℕ) → 0 < i → 0 < k → k < n → (k - 1) / 2 ≡ i → NotLess (at ps k) (at ps ((i - 1) / 2)))

-- A child of a place, and no other child is more urgent.
abbrev pub BestChild : ℕ → ℕ → List Packet → ℕ → Type 0
BestChild i n ps j =
    (j < n)
    × ((j - 1) / 2 ≡ i)
    × (i < j)
    × ((k : ℕ) → 0 < k → k < n → (k - 1) / 2 ≡ i → NotLess (at ps k) (at ps j))

pub child-BestChild : (i n : ℕ) (ps : List Packet) → 2 * i + 1 < n → BestChild i n ps (child i n ps)
unfolding child
child-BestChild i n ps h =
    let left = at ps (2 * i + 1) in
    let right = at ps (2 * i + 2) in
    elim (Bool-cases (ltb (2 * i + 2) n && less right left)) [
      | inl e ↦
          let chosen : child i n ps ≡ 2 * i + 2 = ground arith in
          let urgent : less right left ≡ true = ground arith in
          let inside : 2 * i + 2 < n = ground arith in
          subst (BestChild i n ps) (sym chosen) (
            inside,
            omega arith,
            omega arith,
            λ k over under par. elim (ℕ_discrete k (2 * i + 2)) [
              | yes same ↦ subst (λ m. NotLess (at ps m) right) (sym same) (NotLess-refl right)
              | no other ↦
                  let same : k ≡ 2 * i + 1 = omega arith in
                  subst (λ m. NotLess (at ps m) right) (sym same) (less-NotLess right left urgent)
            ],
          )
      | inr e ↦
          let chosen : child i n ps ≡ 2 * i + 1 = ground arith in
          subst (BestChild i n ps) (sym chosen) (
            h,
            omega arith,
            omega arith,
            λ k over under par. elim (ℕ_discrete k (2 * i + 1)) [
              | yes same ↦ subst (λ m. NotLess (at ps m) left) (sym same) (NotLess-refl left)
              | no other ↦
                  let same : k ≡ 2 * i + 2 = omega arith in
                  let calm : NotLess right left = ground arith in
                  subst (λ m. NotLess (at ps m) left) (sym same) calm
            ],
          )
    ]

HeapBelow-swap :
    (i j n : ℕ) (ps : List Packet)
    → n ≤ length ps
    → HeapBelow i n ps
    → BestChild i n ps j
    → less (at ps j) (at ps i) ≡ true
    → HeapBelow j n (swap i j ps)
HeapBelow-swap i j n ps fits (order, bridge) (hj, parent, under_i, best) h = (below, across)
  where
    moved :
        (k : ℕ)
        → at (swap i j ps) k ≡ (if k == j then at ps i else if k == i then at ps j else at ps k)
    moved k = at-swap i j k ps (omega arith) (omega arith)

    below :
        (k : ℕ)
        → 0 < k
        → k < n
        → (k - 1) / 2 ≢ j
        → NotLess (at (swap i j ps) k) (at (swap i j ps) ((k - 1) / 2))
    below k over inside other =
        let above = (k - 1) / 2 in
        let at_k = moved k in
        let at_above = moved above in
        elim (ℕ_discrete k j) [
          | yes e ↦
              let up_i : above ≡ i = omega arith in
              let calm = less-NotLess (at ps j) (at ps i) h in ground (arith, at_k, at_above, calm)
          | no e ↦ elim (ℕ_discrete above i) [
            | yes f ↦
                let calm = best k over inside f in
                let apart : k ≢ i = λ g. absurd (omega (arith, g)) in
                ground (arith, at_k, at_above, calm)
            | no f ↦ elim (ℕ_discrete k i) [
              | yes g ↦
                  let calm = bridge j (omega arith) (omega arith) hj parent in
                  let up_i : above ≡ (i - 1) / 2 = omega arith in
                  let calm2 : NotLess (at ps j) (at ps above) =
                    subst (λ m. NotLess (at ps j) (at ps m)) (sym up_i) calm in
                  ground (arith, at_k, at_above, calm2)
              | no g ↦ let calm = order k over inside f in ground (arith, at_k, at_above, calm)
            ]
          ]
        ]

    across :
        (k : ℕ)
        → 0 < j
        → 0 < k
        → k < n
        → (k - 1) / 2 ≡ j
        → NotLess (at (swap i j ps) k) (at (swap i j ps) ((j - 1) / 2))
    across k over_j over inside e =
        let at_k = moved k in
        let at_i = moved ((j - 1) / 2) in
        let calm = order k over inside (λ f. absurd (omega (arith, f))) in
        let calm2 : NotLess (at ps k) (at ps j) = subst (λ m. NotLess (at ps k) (at ps m)) e calm in
        let not_j : k ≢ j = λ f. absurd (omega (arith, f)) in
        let not_i : k ≢ i = λ f. absurd (omega (arith, f)) in ground (arith, at_k, at_i, calm2)

-- A heap of as many packets.
abbrev pub Settled : ℕ → List Packet → List Packet × ℕ → Type 0
Settled n ps (later, place) = IsHeap n later × (length later ≡ length ps)

-- `down` moves a place's packet to where it belongs.
pub down-Settled :
    (rounds i n : ℕ) (ps : List Packet)
    → n ≤ length ps
    → n ≤ i + rounds
    → HeapBelow i n ps
    → Settled n ps (down rounds i n ps)
unfolding down
down-Settled zero i n ps fits enough (order, bridge) =
    ((λ k over inside. order k over inside (λ e. absurd (omega (arith, e)))), refl)
down-Settled (suc rounds) i n ps fits enough (order, bridge) =
    let j = child i n ps in
    let best = child-BestChild i n ps in
    let next = swap i j ps in
    let result = down (suc rounds) i n ps in
    elim (Bool-cases (leb n (2 * i + 1) || not (less (at ps j) (at ps i)))) [
      | inl e ↦
          let stays : result ≡ (ps, i) = ground arith in
          subst (Settled n ps) (sym stays) (
            (λ k over inside. elim (ℕ_discrete ((k - 1) / 2) i) [
              | no f ↦ order k over inside f
              | yes f ↦
                  let found = best (omega arith) in
                  let calm : NotLess (at ps j) (at ps i) = ground arith in
                  subst (λ m. NotLess (at ps k) (at ps m)) (sym f)
                    (NotLess-trans (at ps k) (at ps j) (at ps i) (found.3 k over inside f) calm)
            ]),
            refl,
          )
      | inr e ↦
          let goes : result ≡ down rounds j n next = ground arith in
          let found = best (ground arith) in
          let same = length-swap i j ps in
          let below = HeapBelow-swap i j n ps fits (order, bridge) found (ground arith) in
          let (heap, kept) =
            down-Settled rounds j n next (omega (arith, same)) (omega (arith, found.2)) below in
          subst (Settled n ps) (sym goes) (heap, kept ∙ same)
    ]
