-- ===== src/Traffic/Bucket/Tests.antt =====
-- bucket.go: the theorems at concrete inputs, with exact arithmetic.
use gki_pass.Base.{List, [], arith, false, none, refl, ℕ, ◌*◌, ◌+◌, ◌-◌, ◌/◌, ◌^◌, ◌∷◌, ◌≡◌, ◌≤◌}
use gki_pass.Base.Maps.{lookup, nat_eq, string_eq}
use gki_pass.Base.Int.{int_eq}
use gki_pass.Traffic.Bucket.{LeakyBucket, RateLimiter, TokenBucket, refill, try_consume}
use gki_pass.Traffic.Bucket.Tokens.{IsBucket, IsExact}
use gki_pass.Traffic.Bucket.Rate.{consume_all, consume_all-bound}
use gki_pass.Traffic.Bucket.Limiter.{
  LimiterEvent, configures, lookup-run_limiter, own_run, removes, run_limiter, takes,
}

abbrev exactly_earned : ℕ → ℕ → ℕ
exactly_earned a r = a * r / 10 ^ 9

exactly_earned-IsExact : IsExact exactly_earned
exactly_earned-IsExact = record { exact = λ a r h. refl }

abbrev drained : TokenBucket
drained = record { capacity = 10; tokens = 1; rate = 4; last_refill = 0 }

drained-IsBucket : IsBucket drained
drained-IsBucket = record { within = omega arith; small = omega arith }

-- After one second there are five tokens.
refilled : (try_consume exactly_earned (10 ^ 9) 6 drained).1 ≡ false
unfolding try_consume refill
refilled = refl

abbrev requests : List (ℕ × ℕ)
requests = (10 ^ 9, 3) ∷ (10 ^ 9, 7) ∷ (2 * 10 ^ 9, 2) ∷ []

consume_all-bound_example :
    (consume_all exactly_earned requests drained).1 * 10 ^ 9 ≤ 1 * 10 ^ 9 + (2 * 10 ^ 9 - 0) * 4
consume_all-bound_example =
    consume_all-bound exactly_earned exactly_earned-IsExact (2 * 10 ^ 9) requests drained
      drained-IsBucket
      (
        omega arith,
        omega arith,
        (omega arith, omega arith, (omega arith, omega arith, omega arith)),
      )
      (omega arith) (omega arith)

abbrev leaky : LeakyBucket
leaky = record {
  capacity = 10;
  current = 9;
  leak_rate = 4;
  last_leak = 0;
  dropped_packets = 0;
  dropped_bytes = 0;
}

abbrev limiter : RateLimiter
limiter = record { buckets = []; default_capacity = 10; default_rate = 4 }

abbrev events : List LimiterEvent
events = takes 0 "a" 3 ∷ configures 1 "b" 7 1 ∷ takes 2 "a" 5 ∷ removes "b" ∷ []

lookup-run_limiter_example :
    lookup "a" (run_limiter exactly_earned events limiter).buckets
    ≡ own_run exactly_earned 10 4 "a" events none
unfolding lookup
lookup-run_limiter_example = lookup-run_limiter exactly_earned "a" events limiter
