-- ===== src/Traffic/Bucket/Tokens.antt =====
-- bucket.go: how many tokens a bucket gives out.
use gki_pass.Base.{
  Bool, ap, arith, false, if◌then◌else◌, leb, min, sym, true, ℕ, ℕ_discrete, ◌%◌, ◌*◌, ◌+◌, ◌-◌,
  ◌/◌, ◌<◌, ◌==◌, ◌^◌, ◌∙◌, ◌≡◌, ◌≤◌,
}
use gki_pass.Base.Maps.{nat_eq, string_eq}
use gki_pass.Base.Int.{int_eq}
use gki_pass.Base.Signed.{le_64, sub_64}
use gki_pass.Traffic.Bucket.{TokenBucket, refill, try_consume}
use native.Mathlib.Nat.{add-mul}

-- Products below 2^53 are exact in a double, and so is the whole part of their quotient by 10^9:
-- it is then below 2^24, where two doubles differ by less than 10^-9.

pub record IsExact (earned : ℕ → ℕ → ℕ) : Type 0 where
  pub exact : (a r : ℕ) → a * r < 2 ^ 53 → earned a r ≡ a * r / 10 ^ 9

-- A bucket within its capacity.
pub record IsBucket (tb : TokenBucket) : Type 0 where
  pub within : tb.tokens ≤ tb.capacity
  pub small : tb.capacity < 2 ^ 62

-- The time `now` is not before the last refill, and the tokens since then are below 2^53.
pub record IsSoon (now : ℕ) (tb : TokenBucket) : Type 0 where
  pub later : tb.last_refill ≤ now
  pub in_range : now < 2 ^ 63
  pub exactly : (now - tb.last_refill) * tb.rate < 2 ^ 53

-- The whole tokens since the last refill.
abbrev pub due : ℕ → TokenBucket → ℕ
due now tb = (now - tb.last_refill) * tb.rate / 10 ^ 9

-- The guards of `refill` on small numbers.
by_due :
    (now d q : ℕ) (tb : TokenBucket)
    → IsBucket tb
    → d < 2 ^ 63
    → q < 2 ^ 53
    → (d ≡ 0 → q ≡ 0)
    → (if le_64 d 0 then tb else if le_64 q 0 then tb else record tb {
      tokens =
          if le_64 ((tb.tokens + q) % 2 ^ 64) tb.capacity
          then (tb.tokens + q) % 2 ^ 64
          else tb.capacity;
      last_refill = now;
    })
      ≡ (if q == 0
          then tb
          else record tb { tokens = min tb.capacity (tb.tokens + q); last_refill = now })
by_due now d q tb v hd hq z = ground (arith, v.within, v.small)

-- How much of a request counts.
abbrev pub granted : ℕ → Bool → ℕ
granted n true = n
granted n false = 0

pub product_split : (a b r : ℕ) → a ≤ b → (b - a) * r + a * r ≡ b * r
product_split a b r h = sym (add-mul (b - a) a r) ∙ ap (λ x. x * r) (omega arith)

module _ (earned : ℕ → ℕ → ℕ) (law : IsExact earned) where
  pub refill-due :
      (now : ℕ) (tb : TokenBucket)
      → IsBucket tb
      → IsSoon now tb
      → refill earned now tb ≡ (
          if due now tb == 0
          then tb
          else record tb { tokens = min tb.capacity (tb.tokens + due now tb); last_refill = now })
  unfolding refill
  refill-due now tb v soon =
      let elapsed : sub_64 now tb.last_refill ≡ now - tb.last_refill =
        omega (arith, soon.later, soon.in_range) in
      let added = law.exact (now - tb.last_refill) tb.rate soon.exactly in
      rw (elapsed, added)
        (by_due now (now - tb.last_refill) (due now tb) tb v (omega (arith, soon.in_range))
          (omega (arith, soon.exactly)) (λ e. omega (arith, ap (λ x. x * tb.rate) e)))

  -- Taking `n` tokens at a time that is not before the last refill, where products of times and
  -- rates are small: the request is granted exactly if the tokens held and those due since, up to
  -- the capacity, are enough, and a granted request takes its tokens.
  pub try_consume-due :
      (now n : ℕ) (tb : TokenBucket)
      → IsBucket tb
      → IsSoon now tb
      → n < 2 ^ 63
      → let (tb', fine) = try_consume earned now n tb in
        (fine ≡ leb n (min tb.capacity (tb.tokens + due now tb)))
        × (tb'.tokens + granted n fine ≡ min tb.capacity (tb.tokens + due now tb))
        × (tb'.capacity ≡ tb.capacity)
        × (tb'.rate ≡ tb.rate)
        × (tb'.last_refill ≡ (if due now tb == 0 then tb.last_refill else now))
  unfolding try_consume
  try_consume-due now n tb v soon small = elim (ℕ_discrete (due now tb) 0) [
    | yes z ↦ rw (refill-due now tb v soon) (ground (arith, v.within, v.small))
    | no p ↦ rw (refill-due now tb v soon) (ground (arith, v.within, v.small))
  ]
