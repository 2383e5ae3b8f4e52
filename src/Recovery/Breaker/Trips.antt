-- ===== src/Recovery/Breaker/Trips.antt =====
-- circuit_breaker.go: when a breaker opens, what it refuses, and when it closes again.
use gki_pass.Base.{
  Bool, List, [], ap, arith, dec_lt, false, inl, inr, leb, length, map, refl, true, ℕ, ◌*◌, ◌+◌,
  ◌/◌, ◌<◌, ◌^◌, ◌↔◌, ◌∷◌, ◌≡◌, ◌≢◌, ◌≤◌, ◌⊎◌,
}
use gki_pass.Recovery.Breaker.{
  Breaker, Config, Event, call, calls, fails, is_open, record_failure, refused, run, second,
  state_closed, state_half_open, state_open,
}
use gki_pass.Recovery.Breaker.Laws.{HasLimits, IsSound}

-- Failures reported at the given times.
abbrev pub failures : List ℕ → List Event
failures = map fails

-- Protected calls whose operation succeeds, as pairs of start and end.
abbrev pub good_calls : List (ℕ × ℕ) → List Event
good_calls = map λ t. calls t.0 true t.1

-- The breaker's state is `StateClosed`.
abbrev pub is_closed : Breaker → Bool
is_closed b = elim b.state [ state_closed ↦ true | _ ↦ false ]

stays_open :
    (ts : List ℕ) (b : Breaker) → b.state ≡ state_open → is_open (run (failures ts) b) ≡ true
unfolding run is_open
stays_open [] b e = ground arith
stays_open (t ∷ ts) b e = stays_open ts (record_failure t b) (ground arith)

trips_from :
    (ts : List ℕ) (b : Breaker) (c : Config)
    → b.config ≡ c
    → b.state ≡ state_closed
    → b.failure_count < c.failure_threshold
    → c.failure_threshold < 2 ^ 31
    → is_open (run (failures ts) b) ≡ leb c.failure_threshold (b.failure_count + length ts)
unfolding run is_open
trips_from [] b c f e h k = ground arith
trips_from (t ∷ ts) b c f e h k = elim (dec_lt (b.failure_count + 1) c.failure_threshold) [
  | yes p ↦
      ground
        (arith, trips_from ts (record_failure t b) c (ground arith) (ground arith) (ground arith) k)
  | no p ↦ ground (arith, stays_open ts (record_failure t b) (ground arith))
]

-- Of a sound, closed breaker with limits: after reports of failures alone it is open exactly when
-- they bring the failure count to the threshold.
pub failures-open :
    (ts : List ℕ) (b : Breaker)
    → HasLimits b.config
    → IsSound b
    → b.state ≡ state_closed
    → is_open (run (failures ts) b) ≡ leb b.config.failure_threshold (b.failure_count + length ts)
failures-open ts b l v e = trips_from ts b b.config refl e (v.closed_below e) l.failures_small

-- A call is refused exactly when the breaker is open and its timeout has not passed since the
-- second of the last failure; a refused call leaves the breaker as it was.
pub call-refused :
    (now done : ℕ) (good : Bool) (b : Breaker)
    → (((call now good done b).1 ≡ refused)
        ↔ ((b.state ≡ state_open) × (now < b.config.timeout + b.last_failure_time * second)))
      × ((call now good done b).1 ≡ refused → (call now good done b).0 ≡ b)
unfolding call
call-refused now done true b = ground arith
call-refused now done false b = ground arith

record_failure-time :
    (now : ℕ) (b : Breaker)
    → ((record_failure now b).last_failure_time ≡ now / second)
      × ((record_failure now b).config ≡ b.config)
unfolding record_failure
record_failure-time now b = ground arith

-- After a failure that leaves the breaker open, every call that starts at least a second before the
-- timeout is over is refused, and every call from the end of the timeout on is let through
-- (`lastFailureTime` keeps whole seconds).
pub failure-cool_down :
    (failed_at now done : ℕ) (good : Bool) (b : Breaker)
    → (record_failure failed_at b).state ≡ state_open
    → (now + second ≤ failed_at + b.config.timeout
        → (call now good done (record_failure failed_at b)).1 ≡ refused)
      × (failed_at + b.config.timeout ≤ now
          → (call now good done (record_failure failed_at b)).1 ≢ refused)
failure-cool_down failed_at now done good b e =
    let (t, c) = record_failure-time failed_at b in
    let same = ap (λ k. k.timeout) c in
    let (iff, _) = call-refused now done good (record_failure failed_at b) in
    (λ h. iff.1 (e, omega (arith, t, same)), λ h r. absurd (omega (arith, t, same, (iff.0 r).1)))

good_closed :
    (now done : ℕ) (b : Breaker)
    → b.state ≡ state_closed
    → (call now true done b).0.state ≡ state_closed
unfolding call
good_closed now done b e = ground arith

-- A closed breaker stays closed under good calls.
stays_closed :
    (ts : List (ℕ × ℕ)) (b : Breaker)
    → b.state ≡ state_closed
    → is_closed (run (good_calls ts) b) ≡ true
unfolding run
stays_closed [] b e = ground arith
stays_closed (t ∷ ts) b e = stays_closed ts (call t.0 true t.1 b).0 (good_closed t.0 t.1 b e)

-- One good call that is let through by a breaker that is not closed.
good_call :
    (now done : ℕ) (b : Breaker)
    → b.state ≢ state_closed
    → (b.state ≡ state_open → b.config.timeout + b.last_failure_time * second ≤ now)
    → b.success_count < b.config.success_threshold
    → b.config.success_threshold < 2 ^ 31
    → let b' = (call now true done b).0 in
      ((b.success_count + 1 < b.config.success_threshold)
        × (b'.state ≡ state_half_open)
        × (b'.success_count ≡ b.success_count + 1)
        × (b'.config ≡ b.config))
      ⊎ ((b.config.success_threshold ≤ b.success_count + 1) × (b'.state ≡ state_closed))
unfolding call
good_call now done b n o h k = ground arith

heals :
    (t : ℕ × ℕ) (ts : List (ℕ × ℕ)) (b : Breaker)
    → b.state ≢ state_closed
    → (b.state ≡ state_open → b.config.timeout + b.last_failure_time * second ≤ t.0)
    → b.success_count < b.config.success_threshold
    → b.config.success_threshold < 2 ^ 31
    → is_closed (run (good_calls (t ∷ ts)) b)
      ≡ leb b.config.success_threshold (b.success_count + length (t ∷ ts))
unfolding run
heals t [] b n o h k = ground (arith, good_call t.0 t.1 b n o h k)
heals t (u ∷ ts) b n o h k =
    let b' = (call t.0 true t.1 b).0 in
    elim (good_call t.0 t.1 b n o h k) [
      | inl (p, half, count, same) ↦ ground (
        arith,
        half,
        count,
        same,
        heals u ts b' (λ e. ground (arith, half)) (λ e. absurd (ground (arith, half)))
            (ground (arith, p, count, same)) (ground (arith, same)),
      )
      | inr (p, shut) ↦ ground (arith, stays_closed (u ∷ ts) b' shut)
    ]

-- Of a sound, open breaker with limits whose timeout has passed: after good calls alone it is
-- closed exactly when there were as many as the success threshold.
pub good_calls-close :
    (t : ℕ × ℕ) (ts : List (ℕ × ℕ)) (b : Breaker)
    → HasLimits b.config
    → IsSound b
    → b.state ≡ state_open
    → b.config.timeout + b.last_failure_time * second ≤ t.0
    → is_closed (run (good_calls (t ∷ ts)) b) ≡ leb b.config.success_threshold (length (t ∷ ts))
good_calls-close t ts b l v e past =
    let none_yet : b.success_count ≡ 0 = v.settled (λ h. cc) in
    ground (
      arith,
      heals t ts b (λ h. cc) (λ _. past) (omega (arith, l.successes_positive)) l.successes_small,
      none_yet,
    )
