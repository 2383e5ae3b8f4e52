-- ===== src/Traffic/Bucket/Limiter.antt =====
-- bucket.go: the rate limiter keeps one bucket for each identifier.
-- What happens to the limiter.
use gki_pass.Base.{
  List, Option, String, [], ap, ap₂, arith, if◌then◌else◌, none, refl, some, ℕ, ◌∙◌, ◌∷◌, ◌≡◌,
}
use gki_pass.Base.Maps.{lookup, lookup-delete, lookup-insert, nat_eq, string_eq}
use gki_pass.Base.Int.{int_eq}
use gki_pass.Traffic.Bucket.{
  RateLimiter, TokenBucket, get_bucket, new_token_bucket, remove_bucket, set_bucket_config,
  set_capacity, set_rate, try_consume, try_consume_of,
}

pub data LimiterEvent : Type 0 where
  takes : ℕ → String → ℕ → LimiterEvent
  configures : ℕ → String → ℕ → ℕ → LimiterEvent
  removes : String → LimiterEvent

abbrev pub step_limiter : (earned : ℕ → ℕ → ℕ) → LimiterEvent → RateLimiter → RateLimiter
step_limiter earned (takes now id n) rl = (try_consume_of earned now id n rl).0
step_limiter earned (configures now id capacity rate) rl = set_bucket_config now id capacity rate rl
step_limiter earned (removes id) rl = remove_bucket id rl

unfoldable pub run_limiter : (earned : ℕ → ℕ → ℕ) → List LimiterEvent → RateLimiter → RateLimiter
run_limiter earned [] rl = rl
run_limiter earned (e ∷ rest) rl = run_limiter earned rest (step_limiter earned e rl)

-- The bucket of one identifier, by itself: events of other identifiers do not touch it.
abbrev pub made : ℕ → ℕ → ℕ → Option TokenBucket → TokenBucket
made capacity rate now none = new_token_bucket capacity rate now
made capacity rate now (some tb) = tb

abbrev pub own_step :
    (earned : ℕ → ℕ → ℕ) → ℕ → ℕ → String → LimiterEvent → Option TokenBucket → Option TokenBucket
own_step earned capacity rate id (takes now j n) o =
    if string_eq.beq j id then some (try_consume earned now n (made capacity rate now o)).0 else o
own_step earned capacity rate id (configures now j c r) o =
    if string_eq.beq j id then some (set_rate r (set_capacity c (made capacity rate now o))) else o
own_step earned capacity rate id (removes j) o = if string_eq.beq j id then none else o

unfoldable pub own_run :
    (earned : ℕ → ℕ → ℕ)
    → ℕ
    → ℕ
    → String
    → List LimiterEvent
    → Option TokenBucket
    → Option TokenBucket
own_run earned capacity rate id [] o = o
own_run earned capacity rate id (e ∷ rest) o =
    own_run earned capacity rate id rest (own_step earned capacity rate id e o)

get_bucket-made :
    (now : ℕ) (id : String) (rl : RateLimiter)
    → get_bucket now id rl ≡ made rl.default_capacity rl.default_rate now (lookup id rl.buckets)
unfolding get_bucket
get_bucket-made now id rl = ground arith

module _ (earned : ℕ → ℕ → ℕ) where
  step-lookup :
      (id : String) (e : LimiterEvent) (rl : RateLimiter)
      → lookup id (step_limiter earned e rl).buckets
        ≡ own_step earned rl.default_capacity rl.default_rate id e (lookup id rl.buckets)
  unfolding try_consume_of set_bucket_config remove_bucket
  step-lookup id (takes now j n) rl = ground (
    arith,
    lookup-insert j id (try_consume earned now n (get_bucket now j rl)).0 rl.buckets,
    get_bucket-made now j rl,
    string_eq.beq_iff j id,
  )
  step-lookup id (configures now j c r) rl = ground (
    arith,
    lookup-insert j id (set_rate r (set_capacity c (get_bucket now j rl))) rl.buckets,
    get_bucket-made now j rl,
    string_eq.beq_iff j id,
  )
  step-lookup id (removes j) rl = lookup-delete j id rl.buckets

  step-defaults :
      (e : LimiterEvent) (rl : RateLimiter)
      → ((step_limiter earned e rl).default_capacity ≡ rl.default_capacity)
        × ((step_limiter earned e rl).default_rate ≡ rl.default_rate)
  unfolding try_consume_of set_bucket_config remove_bucket
  step-defaults (takes now j n) rl = (refl, refl)
  step-defaults (configures now j c r) rl = (refl, refl)
  step-defaults (removes j) rl = (refl, refl)

  -- Over any requests, configurations and removals, the bucket of an identifier is what the events
  -- of this identifier alone make of it, starting from a bucket with the default settings whenever
  -- there is none.
  pub lookup-run_limiter :
      (id : String) (events : List LimiterEvent) (rl : RateLimiter)
      → lookup id (run_limiter earned events rl).buckets
        ≡ own_run earned rl.default_capacity rl.default_rate id events (lookup id rl.buckets)
  unfolding run_limiter own_run
  lookup-run_limiter id [] rl = refl
  lookup-run_limiter id (e ∷ rest) rl =
      let (cap, rate) = step-defaults e rl in
      lookup-run_limiter id rest (step_limiter earned e rl)
      ∙ ap₂ (λ c r. own_run earned c r id rest (lookup id (step_limiter earned e rl).buckets)) cap
          rate
      ∙ ap (own_run earned rl.default_capacity rl.default_rate id rest) (step-lookup id e rl)
