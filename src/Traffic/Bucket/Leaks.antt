-- ===== src/Traffic/Bucket/Leaks.antt =====
-- bucket.go: what a leaky bucket takes in.
-- A bucket within its capacity.
use gki_pass.Base.{
  Bool, ap, arith, false, if◌then◌else◌, leb, true, ℕ, ℕ_discrete, ◌%◌, ◌*◌, ◌+◌, ◌-◌, ◌/◌, ◌<◌,
  ◌==◌, ◌^◌, ◌≡◌, ◌≤◌,
}
use gki_pass.Base.Maps.{nat_eq, string_eq}
use gki_pass.Base.Int.{int_eq}
use gki_pass.Base.Signed.{le_64, sub_64}
use gki_pass.Traffic.Bucket.{LeakyBucket, leak, try_add}
use gki_pass.Traffic.Bucket.Tokens.{IsExact, granted}

pub record IsLeaky (lb : LeakyBucket) : Type 0 where
  pub within : lb.current ≤ lb.capacity
  pub small : lb.capacity < 2 ^ 62

-- The time `now` is not before the last leak, and what leaks since then is below 2^53.
pub record LeaksSoon (now : ℕ) (lb : LeakyBucket) : Type 0 where
  pub later : lb.last_leak ≤ now
  pub in_range : now < 2 ^ 63
  pub exactly : (now - lb.last_leak) * lb.leak_rate < 2 ^ 53

-- The whole bytes that leak.
abbrev pub leaks : ℕ → LeakyBucket → ℕ
leaks now lb = (now - lb.last_leak) * lb.leak_rate / 10 ^ 9

-- The guards of `leak` on small numbers.
by_leak :
    (now d q : ℕ) (lb : LeakyBucket)
    → IsLeaky lb
    → d < 2 ^ 63
    → q < 2 ^ 53
    → (d ≡ 0 → q ≡ 0)
    → (if le_64 d 0 then lb else if le_64 q 0 then lb else record lb {
      current = if le_64 0 (sub_64 lb.current q) then sub_64 lb.current q else 0;
      last_leak = now;
    })
      ≡ (if q == 0 then lb else record lb { current = lb.current - q; last_leak = now })
by_leak now d q lb v hd hq z = ground (arith, v.within, v.small)

-- What became of the counters of dropped data.
abbrev pub Dropped : ℕ → Bool → LeakyBucket → LeakyBucket → Type 0
Dropped size true lb lb' =
    (lb'.dropped_packets ≡ lb.dropped_packets) × (lb'.dropped_bytes ≡ lb.dropped_bytes)
Dropped size false lb lb' =
    (lb'.dropped_packets ≡ (lb.dropped_packets + 1) % 2 ^ 64)
    × (lb'.dropped_bytes ≡ (lb.dropped_bytes + size) % 2 ^ 64)

module _ (earned : ℕ → ℕ → ℕ) (law : IsExact earned) where
  leak-due :
      (now : ℕ) (lb : LeakyBucket)
      → IsLeaky lb
      → LeaksSoon now lb
      → leak earned now lb ≡ (
          if leaks now lb == 0
          then lb
          else record lb { current = lb.current - leaks now lb; last_leak = now })
  unfolding leak
  leak-due now lb v soon =
      let elapsed : sub_64 now lb.last_leak ≡ now - lb.last_leak =
        omega (arith, soon.later, soon.in_range) in
      let leaked = law.exact (now - lb.last_leak) lb.leak_rate soon.exactly in
      rw (elapsed, leaked)
        (by_leak now (now - lb.last_leak) (leaks now lb) lb v (omega (arith, soon.in_range))
          (omega (arith, soon.exactly)) (λ e. omega (arith, ap (λ x. x * lb.leak_rate) e)))

  -- Adding data of a size below 2^62, at a time not before the last leak and where products of
  -- times and rates are small: after the leak the data is taken exactly if it fits below the
  -- capacity, and only data that is refused is counted as dropped. The bucket stays within its
  -- capacity.
  pub try_add-leaks :
      (now size : ℕ) (lb : LeakyBucket)
      → IsLeaky lb
      → LeaksSoon now lb
      → size < 2 ^ 62
      → let (lb', fine) = try_add earned now size lb in
        (fine ≡ leb (lb.current - leaks now lb + size) lb.capacity)
        × (lb'.current ≡ lb.current - leaks now lb + granted size fine)
        × Dropped size fine lb lb'
        × IsLeaky lb'
  unfolding try_add
  try_add-leaks now size lb v soon small = elim (ℕ_discrete (leaks now lb) 0) [
    | yes z ↦ rw (leak-due now lb v soon) (ground (arith, v.within, v.small))
    | no p ↦ rw (leak-due now lb v soon) (ground (arith, v.within, v.small))
  ]
