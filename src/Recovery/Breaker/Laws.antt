-- ===== src/Recovery/Breaker/Laws.antt =====
-- circuit_breaker.go: the counters stay in step with the state.
use gki_pass.Base.{Bool, List, [], arith, false, refl, subst, sym, true, ℕ, ◌<◌, ◌^◌, ◌∷◌, ◌≡◌, ◌≢◌}
use gki_pass.Recovery.Breaker.{
  Breaker, Config, Event, allow_request, call, calls, expires, fails, new_circuit_breaker,
  record_failure, record_success, reset, reset_expired, resets, run, state_closed, state_half_open,
  step, succeeds,
}

-- Thresholds that an `int32` counter can reach.
pub record HasLimits (c : Config) : Type 0 where
  pub failures_positive : 0 < c.failure_threshold
  pub failures_small : c.failure_threshold < 2 ^ 31
  pub successes_positive : 0 < c.success_threshold
  pub successes_small : c.success_threshold < 2 ^ 31

-- What each state promises of the counters: a closed breaker is below its failure threshold, a
-- half-open one below its success threshold, and elsewhere no successes are counted.
pub record IsSound (b : Breaker) : Type 0 where
  pub closed_below : b.state ≡ state_closed → b.failure_count < b.config.failure_threshold
  pub half_open_below : b.state ≡ state_half_open → b.success_count < b.config.success_threshold
  pub settled : b.state ≢ state_half_open → b.success_count ≡ 0

pub new-IsSound : (c : Config) → HasLimits c → IsSound (new_circuit_breaker c)
unfolding new_circuit_breaker
new-IsSound c l = record {
  closed_below = λ e. l.failures_positive;
  half_open_below = λ e. ground arith;
  settled = λ e. refl;
}

record_success-IsSound : (b : Breaker) → HasLimits b.config → IsSound b → IsSound (record_success b)
unfolding record_success
record_success-IsSound b l v = ground arith

record_failure-IsSound :
    (now : ℕ) (b : Breaker) → HasLimits b.config → IsSound b → IsSound (record_failure now b)
unfolding record_failure
record_failure-IsSound now b l v = ground arith

allow_request-IsSound :
    (now : ℕ) (b : Breaker) → HasLimits b.config → IsSound b → IsSound (allow_request now b).0
unfolding allow_request
allow_request-IsSound now b l v = ground arith

reset-IsSound : (b : Breaker) → HasLimits b.config → IsSound b → IsSound (reset b)
unfolding reset
reset-IsSound b l v = ground arith

reset_expired-IsSound :
    (now : ℕ) (b : Breaker) → HasLimits b.config → IsSound b → IsSound (reset_expired now b)
unfolding reset_expired
reset_expired-IsSound now b l v = ground arith

pub step-config : (e : Event) (b : Breaker) → (step e b).config ≡ b.config
unfolding step
step-config (calls now true done) b = ground arith
step-config (calls now false done) b = ground arith
step-config succeeds b = ground arith
step-config resets b = ground arith
step-config (fails now) b = ground arith
step-config (expires now) b = ground arith

call-IsSound :
    (now done : ℕ) (good : Bool) (b : Breaker)
    → HasLimits b.config
    → IsSound b
    → IsSound (call now good done b).0
unfolding call
call-IsSound now done true b l v = ground arith
call-IsSound now done false b l v = ground arith

step-IsSound : (e : Event) (b : Breaker) → HasLimits b.config → IsSound b → IsSound (step e b)
unfolding step
step-IsSound (calls now good done) b l v = call-IsSound now done good b l v
step-IsSound succeeds b l v = record_success-IsSound b l v
step-IsSound resets b l v = reset-IsSound b l v
step-IsSound (fails now) b l v = record_failure-IsSound now b l v
step-IsSound (expires now) b l v = reset_expired-IsSound now b l v

run-IsSound : (es : List Event) (b : Breaker) → HasLimits b.config → IsSound b → IsSound (run es b)
unfolding run
run-IsSound [] b l v = v
run-IsSound (e ∷ es) b l v =
    run-IsSound es (step e b) (subst HasLimits (sym (step-config e b)) l) (step-IsSound e b l v)

-- A new breaker whose thresholds are positive and below 2^31 keeps its counters in step with its
-- state through every history of calls, records, resets and expiries.
pub run-new-IsSound :
    (c : Config) (es : List Event) → HasLimits c → IsSound (run es (new_circuit_breaker c))
unfolding new_circuit_breaker
run-new-IsSound c es l = run-IsSound es (new_circuit_breaker c) l (new-IsSound c l)
