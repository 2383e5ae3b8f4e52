-- ===== src/Recovery/Breaker/Tests.antt =====
-- circuit_breaker.go: runs of a breaker, and the theorems at concrete inputs.
use gki_pass.Base.{List, [], arith, false, none, refl, true, ◌*◌, ◌∷◌, ◌≡◌}
use gki_pass.Base.Maps.{lookup, nat_eq, string_eq}
use gki_pass.Base.Int.{int_eq}
use gki_pass.Recovery.Breaker.{
  Breaker, Config, call, expires, fails, new_circuit_breaker, refused, run, second, state_closed,
  state_half_open, state_open, succeeds,
}
use gki_pass.Recovery.Breaker.Laws.{HasLimits, IsSound, run-new-IsSound}
use gki_pass.Recovery.Breaker.Registry.{
  Registry, Report, lookup-update_all, own_breaker, own_events, update_all,
}

abbrev config : Config
config = record {
  enabled = true;
  failure_threshold = 2;
  success_threshold = 2;
  timeout = 60 * second;
}

config-HasLimits : HasLimits config
config-HasLimits = record {
  failures_positive = omega arith;
  failures_small = omega arith;
  successes_positive = omega arith;
  successes_small = omega arith;
}

abbrev fresh : Breaker
fresh = record {
  config = config;
  state = state_closed;
  failure_count = 0;
  success_count = 0;
  last_failure_time = 0;
  total_requests = 0;
  total_failures = 0;
  total_successes = 0;
}

abbrev tripped : Breaker
tripped = record fresh { state = state_open; failure_count = 2; last_failure_time = 7 }

fresh-IsSound : IsSound fresh
fresh-IsSound = record {
  closed_below = λ _. omega arith;
  half_open_below = λ _. omega arith;
  settled = λ _. refl;
}

tripped-IsSound : IsSound tripped
tripped-IsSound = record {
  closed_below = λ e. absurd (cc);
  half_open_below = λ _. omega arith;
  settled = λ _. refl;
}

-- Two failures open the breaker, and it lets one call through when its timeout is over.
opens_and_probes :
    ((run (fails (3 * second) ∷ fails (7 * second) ∷ []) fresh).state ≡ state_open)
    × ((call (60 * second) true 0 tripped).1 ≡ refused)
    × ((call (67 * second) true 0 tripped).0.state ≡ state_half_open)
unfolding run call
opens_and_probes = (refl, refl, refl)

run-new-IsSound_example :
    IsSound
      (run (fails 5 ∷ fails 6 ∷ expires (61 * second) ∷ succeeds ∷ []) (new_circuit_breaker config))
run-new-IsSound_example =
    run-new-IsSound config (fails 5 ∷ fails 6 ∷ expires (61 * second) ∷ succeeds ∷ [])
      config-HasLimits

abbrev reports : List Report
reports =
    record { key = "relay:TIMEOUT"; success = false; at = 5 }
    ∷ record { key = "tls:AUTH"; success = true; at = 6 }
    ∷ record { key = "relay:TIMEOUT"; success = false; at = 7 }
    ∷ []

abbrev no_breakers : Registry
no_breakers = []

lookup-update_all_example :
    lookup "relay:TIMEOUT" (update_all config reports no_breakers)
    ≡ own_breaker config (own_events "relay:TIMEOUT" reports) none
unfolding lookup
lookup-update_all_example = lookup-update_all config "relay:TIMEOUT" reports no_breakers refl

abbrev table : Registry
table = ("tls:AUTH", tripped) ∷ []
