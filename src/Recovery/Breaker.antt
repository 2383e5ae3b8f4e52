-- ===== src/Recovery/Breaker.antt =====
-- client/internal/recovery/circuit_breaker.go: one breaker, its three states and its counters.
-- The clock is an argument: `now` is what `time.Now` reads, in nanoseconds since the epoch. An
-- `atomic.Int32` or `atomic.Int64` is its bit pattern, so that an increment wraps. The logger and
-- the name, which only the logger uses, are left out. A call runs alone: the model has no
-- interleaving of two calls inside one method.
pub mod Laws
pub mod Trips
pub mod Registry
mod Tests
use gki_pass.Base.{
  Bool, List, [], false, if◌then◌else◌, leb, ltb, true, ℕ, ◌%◌, ◌&&◌, ◌*◌, ◌+◌, ◌/◌, ◌^◌, ◌∷◌,
}

-- `CircuitBreakerState`
pub data State : Type 0 where
  state_closed state_open state_half_open : State

-- `CircuitBreakerConfig`; the timeout is in nanoseconds, and no field is negative.
pub record Config : Type 0 where
  pub enabled : Bool
  pub failure_threshold : ℕ
  pub success_threshold : ℕ
  pub timeout : ℕ

pub record Breaker : Type 0 where
  pub config : Config
  pub state : State
  pub failure_count : ℕ
  pub success_count : ℕ
  pub last_failure_time : ℕ
  pub total_requests : ℕ
  pub total_failures : ℕ
  pub total_successes : ℕ

abbrev pub second : ℕ
second = 1_000_000_000

-- The defaults that a nil configuration is replaced by.
abbrev pub default_config : Config
default_config = record {
  enabled = false;
  failure_threshold = 5;
  success_threshold = 3;
  timeout = 60 * second;
}

unfoldable pub new_circuit_breaker : Config → Breaker
new_circuit_breaker config = record {
  config = config;
  state = state_closed;
  failure_count = 0;
  success_count = 0;
  last_failure_time = 0;
  total_requests = 0;
  total_failures = 0;
  total_successes = 0;
}

abbrev pub add_32 : ℕ → ℕ
add_32 n = (n + 1) % 2 ^ 32

abbrev pub add_64 : ℕ → ℕ
add_64 n = (n + 1) % 2 ^ 64

-- `int(count) >= threshold`: a pattern from 2^31 on is a negative `int32`.
abbrev pub reached : ℕ → ℕ → Bool
reached count threshold = ltb count (2 ^ 31) && leb threshold count

unfoldable pub set_state : State → Breaker → Breaker
set_state s b = record b { state = s }

-- `time.Since(lastFailure) >= cb.config.Timeout`, as integers: the difference may be negative.
unfoldable pub should_attempt_reset : ℕ → Breaker → Bool
should_attempt_reset now b = leb (b.config.timeout + b.last_failure_time * second) now

allow_in : State → ℕ → Breaker → Breaker × Bool
unfolding set_state should_attempt_reset
allow_in state_closed now b = (b, true)
allow_in state_open now b =
    if should_attempt_reset now b then (set_state state_half_open b, true) else (b, false)
allow_in state_half_open now b = (b, true)

unfoldable pub allow_request : ℕ → Breaker → Breaker × Bool
unfolding allow_in
allow_request now b = allow_in b.state now b

success_in : State → Breaker → Breaker
unfolding set_state
success_in state_closed b = record b { failure_count = 0 }
success_in state_open b = b
success_in state_half_open b =
    let b' = record b { success_count = add_32 b.success_count } in
    if reached b'.success_count b.config.success_threshold
    then record (set_state state_closed b') { failure_count = 0; success_count = 0 }
    else b'

unfoldable pub record_success : Breaker → Breaker
unfolding success_in
record_success b = success_in b.state (record b { total_successes = add_64 b.total_successes })

failure_in : State → Breaker → Breaker
unfolding set_state
failure_in state_closed b =
    if reached b.failure_count b.config.failure_threshold then set_state state_open b else b
failure_in state_open b = b
failure_in state_half_open b = record (set_state state_open b) { success_count = 0 }

unfoldable pub record_failure : ℕ → Breaker → Breaker
unfolding failure_in
record_failure now b = failure_in b.state (record b {
  total_failures = add_64 b.total_failures;
  last_failure_time = now / second;
  failure_count = add_32 b.failure_count;
})

pub data Outcome : Type 0 where
  refused failed succeeded : Outcome

-- `Call(fn)`: whether `fn` succeeds, and when it returns, are arguments.
call_allowed : Bool → ℕ → Breaker × Bool → Breaker × Outcome
unfolding record_success record_failure
call_allowed good done (b, false) = (b, refused)
call_allowed true done (b, true) =
    (record_success (record b { total_requests = add_64 b.total_requests }), succeeded)
call_allowed false done (b, true) =
    (record_failure done (record b { total_requests = add_64 b.total_requests }), failed)

unfoldable pub call : ℕ → Bool → ℕ → Breaker → Breaker × Outcome
unfolding call_allowed allow_request
call now good done b = call_allowed good done (allow_request now b)

is_open_state : State → Bool
is_open_state state_open = true
is_open_state _ = false

unfoldable pub is_open : Breaker → Bool
unfolding is_open_state
is_open b = is_open_state b.state

unfoldable pub reset : Breaker → Breaker
unfolding set_state
reset b = record (set_state state_closed b) { failure_count = 0; success_count = 0 }

-- The body of the loop of `resetExpiredCircuitBreakers`.
unfoldable pub reset_expired : ℕ → Breaker → Breaker
unfolding is_open set_state should_attempt_reset
reset_expired now b =
    if is_open b && should_attempt_reset now b then set_state state_half_open b else b

-- What can happen to a breaker.
pub data Event : Type 0 where
  calls : ℕ → Bool → ℕ → Event
  succeeds resets : Event
  fails expires : ℕ → Event

unfoldable pub step : Event → Breaker → Breaker
unfolding call record_success record_failure reset reset_expired
step (calls now good done) b = (call now good done b).0
step succeeds b = record_success b
step resets b = reset b
step (fails now) b = record_failure now b
step (expires now) b = reset_expired now b

unfoldable pub run : List Event → Breaker → Breaker
unfolding step
run [] b = b
run (e ∷ es) b = run es (step e b)
