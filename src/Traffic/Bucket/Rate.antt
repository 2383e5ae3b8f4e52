-- ===== src/Traffic/Bucket/Rate.antt =====
-- bucket.go: how many tokens a bucket gives out over many requests.
use gki_pass.Base.{
  List, [], ap, arith, if◌then◌else◌, ℕ, ℕ_discrete, ◌*◌, ◌+◌, ◌-◌, ◌<◌, ◌==◌, ◌^◌, ◌∷◌, ◌≡◌, ◌≤◌,
}
use gki_pass.Base.Maps.{nat_eq, string_eq}
use gki_pass.Base.Int.{int_eq}
use gki_pass.Traffic.Bucket.{TokenBucket, try_consume}
use gki_pass.Traffic.Bucket.Tokens.{
  IsBucket, IsExact, IsSoon, due, granted, product_split, try_consume-due,
}
use native.Mathlib.Nat.{mul-le-mul_right}

-- Requests with their times and amounts; the result counts the tokens given out.
unfoldable pub consume_all : (earned : ℕ → ℕ → ℕ) → List (ℕ × ℕ) → TokenBucket → TokenBucket × ℕ
consume_all earned [] tb = (tb, 0)
consume_all earned ((now, n) ∷ rest) tb =
    let (tb', fine) = try_consume earned now n tb in
    let (tb'', given) = consume_all earned rest tb' in (tb'', granted n fine + given)

-- The requests come in the order of their times, all from `from` to `end`, and ask for no negative
-- amount.
abbrev pub Timely : ℕ → ℕ → List (ℕ × ℕ) → Type 0
Timely from end [] = from ≤ end
Timely from end ((now, n) ∷ rest) = (from ≤ now) × (n < 2 ^ 63) × Timely now end rest

Timely-le : (from end : ℕ) (rest : List (ℕ × ℕ)) → Timely from end rest → from ≤ end
Timely-le from end [] h = h
Timely-le from end ((now, n) ∷ rest) h = omega (arith, h.0, Timely-le now end rest h.2)

within_span :
    (now end : ℕ) (tb : TokenBucket)
    → tb.last_refill ≤ now
    → now ≤ end
    → end < 2 ^ 63
    → (end - tb.last_refill) * tb.rate < 2 ^ 53
    → IsSoon now tb
within_span now end tb h k e small =
    let shorter : now - tb.last_refill ≤ end - tb.last_refill = omega arith in
    record {
      later = h;
      in_range = omega arith;
      exactly = omega (arith, mul-le-mul_right tb.rate shorter);
    }

last_moved :
    (now : ℕ) (tb tb' : TokenBucket)
    → tb.last_refill ≤ now
    → tb'.last_refill ≡ (if due now tb == 0 then tb.last_refill else now)
    → (tb.last_refill ≤ tb'.last_refill) × (tb'.last_refill ≤ now)
last_moved now tb tb' h e = elim (ℕ_discrete (due now tb) 0) [
  | yes z ↦ (ground arith, ground arith)
  | no p ↦ (ground arith, ground arith)
]

small-step :
    (end : ℕ) (tb tb' : TokenBucket)
    → tb.last_refill ≤ tb'.last_refill
    → tb'.rate ≡ tb.rate
    → (end - tb.last_refill) * tb.rate < 2 ^ 53
    → (end - tb'.last_refill) * tb'.rate < 2 ^ 53
small-step end tb tb' h e small =
    let shorter : end - tb'.last_refill ≤ end - tb.last_refill = omega arith in
    omega (arith, mul-le-mul_right tb.rate shorter, ap (λ r. (end - tb'.last_refill) * r) e)

-- What was due is paid for by the time since the last refill.
earned_since :
    (now : ℕ) (tb tb' : TokenBucket)
    → tb.last_refill ≤ now
    → tb'.last_refill ≡ (if due now tb == 0 then tb.last_refill else now)
    → due now tb * 10 ^ 9 + tb.last_refill * tb.rate ≤ tb'.last_refill * tb.rate
earned_since now tb tb' h e = elim (ℕ_discrete (due now tb) 0) [
  | yes z ↦
      let same : tb'.last_refill ≡ tb.last_refill = ground arith in
      omega (arith, z, ap (λ x. x * tb.rate) same)
  | no p ↦
      let same : tb'.last_refill ≡ now = ground arith in
      omega (arith, ap (λ x. x * tb.rate) same, product_split tb.last_refill now tb.rate h)
]

module _ (earned : ℕ → ℕ → ℕ) (law : IsExact earned) where
  given-bound :
      (from end : ℕ) (rest : List (ℕ × ℕ)) (tb : TokenBucket)
      → IsBucket tb
      → tb.last_refill ≤ from
      → Timely from end rest
      → end < 2 ^ 63
      → (end - tb.last_refill) * tb.rate < 2 ^ 53
      → (consume_all earned rest tb).1 * 10 ^ 9 + tb.last_refill * tb.rate
        ≤ tb.tokens * 10 ^ 9 + end * tb.rate
  unfolding consume_all
  given-bound from end [] tb v h t e small =
      let until : tb.last_refill ≤ end = omega (arith, h, t) in
      omega (arith, mul-le-mul_right tb.rate until)
  given-bound from end ((now, n) ∷ rest) tb v h t e small =
      let soon = within_span now end tb (omega (arith, t.0)) (Timely-le now end rest t.2) e small in
      let (_, held, cap, rate, last) = try_consume-due earned law now n tb v soon t.1 in
      let tb' = (try_consume earned now n tb).0 in
      let moved = last_moved now tb tb' soon.later last in
      let v' : IsBucket tb' = record {
        within = omega (arith, held, cap);
        small = omega (arith, cap, v.small);
      } in
      let small' = small-step end tb tb' moved.0 rate small in
      let later = given-bound now end rest tb' v' moved.1 t.2 e small' in
      omega (
        arith,
        later,
        held,
        ap (λ r. tb'.last_refill * r) rate,
        ap (λ r. end * r) rate,
        earned_since now tb tb' soon.later last,
      )

  -- A bucket that holds no more tokens than its capacity, which is below 2^62, over requests of no
  -- negative amounts, in the order of their times from its last refill on, to an end before 2^63
  -- nanoseconds that is so near that the time up to it, in nanoseconds, multiplied by the rate is
  -- below 2^53, where the product in floating point is exact: the bucket gives out no more tokens
  -- than it holds at the start and earns at its rate from its last refill to the end.
  pub consume_all-bound :
      (end : ℕ) (rest : List (ℕ × ℕ)) (tb : TokenBucket)
      → IsBucket tb
      → Timely tb.last_refill end rest
      → end < 2 ^ 63
      → (end - tb.last_refill) * tb.rate < 2 ^ 53
      → (consume_all earned rest tb).1 * 10 ^ 9
        ≤ tb.tokens * 10 ^ 9 + (end - tb.last_refill) * tb.rate
  consume_all-bound end rest tb v t e small = omega (
    arith,
    given-bound tb.last_refill end rest tb v (omega arith) t e small,
    product_split tb.last_refill end tb.rate (Timely-le tb.last_refill end rest t),
  )
