-- ===== src/Traffic/Bucket.antt =====
-- client/internal/traffic/bucket.go: token buckets, leaky buckets, and the limiter with one token
-- bucket for each identifier. Times are nanoseconds and arguments, a lock makes each operation one
-- step, and an `int64` is its bit pattern. `int64(float64(a) * float64(r) / float64(time.Second))`
-- is floating-point arithmetic: a function `earned` of `a` and `r`, which is a parameter.
pub mod Tokens
pub mod Rate
pub mod Leaks
pub mod Limiter
pub mod Tests
use gki_pass.Base.{Bool, List, String, false, if◌then◌else◌, none, some, true, ℕ, ◌%◌, ◌+◌, ◌^◌}
use gki_pass.Base.Maps.{delete, insert, lookup, nat_eq, string_eq}
use gki_pass.Base.Int.{int_eq}
use gki_pass.Base.Signed.{le_64, sub_64}

pub record TokenBucket : Type 0 where
  pub capacity : ℕ
  pub tokens : ℕ
  pub rate : ℕ
  pub last_refill : ℕ

-- `NewTokenBucket`
unfoldable pub new_token_bucket : ℕ → ℕ → ℕ → TokenBucket
new_token_bucket capacity rate now = record {
  capacity = capacity;
  tokens = capacity;
  rate = rate;
  last_refill = now;
}

pub record LeakyBucket : Type 0 where
  pub capacity : ℕ
  pub current : ℕ
  pub leak_rate : ℕ
  pub last_leak : ℕ
  pub dropped_packets : ℕ
  pub dropped_bytes : ℕ

-- `NewLeakyBucket`
unfoldable pub new_leaky_bucket : ℕ → ℕ → ℕ → LeakyBucket
new_leaky_bucket capacity leak_rate now = record {
  capacity = capacity;
  current = 0;
  leak_rate = leak_rate;
  last_leak = now;
  dropped_packets = 0;
  dropped_bytes = 0;
}

-- `SetRate`
abbrev pub set_rate : ℕ → TokenBucket → TokenBucket
set_rate rate tb = record tb { rate = rate }

-- `SetCapacity`
abbrev pub set_capacity : ℕ → TokenBucket → TokenBucket
set_capacity capacity tb = record tb {
  capacity = capacity;
  tokens = if le_64 tb.tokens capacity then tb.tokens else capacity;
}

-- `RateLimiter`
pub record RateLimiter : Type 0 where
  pub buckets : List (String × TokenBucket)
  pub default_capacity : ℕ
  pub default_rate : ℕ

-- `GetBucket`: the bucket of the identifier, made at `now` if it is not there. The map holds a
-- pointer, so whoever changes the bucket puts it into the map.
unfoldable pub get_bucket : ℕ → String → RateLimiter → TokenBucket
get_bucket now id rl = elim (lookup id rl.buckets) [
  | none ↦ new_token_bucket rl.default_capacity rl.default_rate now
  | some tb ↦ tb
]

-- `SetBucketConfig`
unfoldable pub set_bucket_config : ℕ → String → ℕ → ℕ → RateLimiter → RateLimiter
set_bucket_config now id capacity rate rl = record rl {
  buckets = insert id (set_rate rate (set_capacity capacity (get_bucket now id rl))) rl.buckets;
}

-- `RemoveBucket`
unfoldable pub remove_bucket : String → RateLimiter → RateLimiter
remove_bucket id rl = record rl { buckets = delete id rl.buckets }

module _ (earned : ℕ → ℕ → ℕ) where
  -- `refill`
  unfoldable pub refill : ℕ → TokenBucket → TokenBucket
  refill now tb =
      let elapsed = sub_64 now tb.last_refill in
      let added = earned elapsed tb.rate in
      let filled = (tb.tokens + added) % 2 ^ 64 in
      if le_64 elapsed 0 then tb else if le_64 added 0 then tb else record tb {
        tokens = if le_64 filled tb.capacity then filled else tb.capacity;
        last_refill = now;
      }

  -- `TryConsume`
  unfoldable pub try_consume : ℕ → ℕ → TokenBucket → TokenBucket × Bool
  try_consume now n tb =
      let tb' = refill now tb in
      if le_64 n tb'.tokens
      then (record tb' { tokens = sub_64 tb'.tokens n }, true)
      else (tb', false)

  -- `GetTokens`
  unfoldable pub get_tokens : ℕ → TokenBucket → TokenBucket × ℕ
  get_tokens now tb = let tb' = refill now tb in (tb', tb'.tokens)

  -- `leak`
  unfoldable pub leak : ℕ → LeakyBucket → LeakyBucket
  leak now lb =
      let elapsed = sub_64 now lb.last_leak in
      let leaked = earned elapsed lb.leak_rate in
      let left = sub_64 lb.current leaked in
      if le_64 elapsed 0
      then lb
      else if le_64 leaked 0
      then lb
      else record lb { current = if le_64 0 left then left else 0; last_leak = now }

  -- `TryAdd`
  unfoldable pub try_add : ℕ → ℕ → LeakyBucket → LeakyBucket × Bool
  try_add now size lb =
      let lb' = leak now lb in
      if le_64 ((lb'.current + size) % 2 ^ 64) lb'.capacity
      then (record lb' { current = (lb'.current + size) % 2 ^ 64 }, true)
      else (
        record lb' {
          dropped_packets = (lb'.dropped_packets + 1) % 2 ^ 64;
          dropped_bytes = (lb'.dropped_bytes + size) % 2 ^ 64;
        },
        false,
      )

  -- `RateLimiter.TryConsume`
  unfoldable pub try_consume_of : ℕ → String → ℕ → RateLimiter → RateLimiter × Bool
  try_consume_of now id n rl =
      let (tb, done) = try_consume now n (get_bucket now id rl) in
      (record rl { buckets = insert id tb rl.buckets }, done)
