-- ===== src/Recovery/Breaker/Registry.antt =====
-- circuit_breaker.go: the breakers of a `Manager`, by their key `component:errorType`, which is
-- taken as one string. `config` is the manager's `CircuitBreakerConfig`.
use gki_pass.Base.{
  Bool, Bool-cases, List, Option, Option-cases, String, [], ap, arith, false, if◌then◌else◌, inl,
  inr, leb, length, none, refl, some, true, ℕ, ◌*◌, ◌+◌, ◌<◌, ◌↔◌, ◌∙◌, ◌∷◌, ◌≡◌,
}
use gki_pass.Base.Maps.{insert, lookup, lookup-insert, string_eq}
use gki_pass.Recovery.Breaker.{
  Breaker, Config, Event, fails, is_open, new_circuit_breaker, record_failure, record_success,
  reset_expired, run, second, step, succeeds,
}
use gki_pass.Recovery.Breaker.Laws.{HasLimits, new-IsSound}
use gki_pass.Recovery.Breaker.Trips.{failures, failures-open}

abbrev pub Registry : Type 0
Registry = List (String × Breaker)

or_new : Config → Option Breaker → Breaker
or_new config none = new_circuit_breaker config
or_new config (some b) = b

record_result : Bool → ℕ → Breaker → Breaker
record_result true now b = record_success b
record_result false now b = record_failure now b

open_at : Option Breaker → Bool
open_at none = false
open_at (some b) = is_open b

unfoldable pub is_circuit_breaker_open : Config → String → Registry → Bool
unfolding open_at
is_circuit_breaker_open config key m = if config.enabled then open_at (lookup key m) else false

unfoldable pub update_circuit_breaker : Config → String → Bool → ℕ → Registry → Registry
unfolding or_new record_result
update_circuit_breaker config key success now m =
    if config.enabled
    then insert key (record_result success now (or_new config (lookup key m))) m
    else m

-- `resetExpiredCircuitBreakers`: the loop over all breakers.
unfoldable pub reset_expired_circuit_breakers : ℕ → Registry → Registry
reset_expired_circuit_breakers now [] = []
reset_expired_circuit_breakers now ((k, b) ∷ m) =
    (k, reset_expired now b) ∷ reset_expired_circuit_breakers now m

pub record Report : Type 0 where
  pub key : String
  pub success : Bool
  pub at : ℕ

-- The reports in turn.
unfoldable pub update_all : Config → List Report → Registry → Registry
unfolding update_circuit_breaker
update_all config [] m = m
update_all config (r ∷ rs) m =
    update_all config rs (update_circuit_breaker config r.key r.success r.at m)

-- The events of one key.
abbrev pub own_event : Report → Event
own_event r = if r.success then succeeds else fails r.at

abbrev pub own_events : String → List Report → List Event
own_events key [] = []
own_events key (r ∷ rs) =
    if string_eq.beq r.key key then own_event r ∷ own_events key rs else own_events key rs

unfoldable pub own_breaker : Config → List Event → Option Breaker → Option Breaker
unfolding or_new
own_breaker config [] found = found
own_breaker config (e ∷ es) found = some (run (e ∷ es) (or_new config found))

lookup-update :
    (config : Config) (r : Report) (key : String) (m : Registry)
    → config.enabled ≡ true
    → lookup key (update_circuit_breaker config r.key r.success r.at m) ≡ (
        if string_eq.beq r.key key
        then some (step (own_event r) (or_new config (lookup key m)))
        else lookup key m)
unfolding update_circuit_breaker step
lookup-update config r key m e = ground (
  arith,
  string_eq.beq_iff r.key key,
  lookup-insert r.key key (record_result r.success r.at (or_new config (lookup r.key m))) m,
)

own_breaker-step :
    (config : Config) (e : Event) (es : List Event) (found : Option Breaker)
    → own_breaker config es (some (step e (or_new config found)))
      ≡ own_breaker config (e ∷ es) found
unfolding own_breaker run or_new
own_breaker-step config e [] found = refl
own_breaker-step config e (f ∷ es) found = refl

-- With the manager's circuit breaking enabled, the breaker of a key after any reports is the one
-- that the key's own reports make, in their order, from the one found at first, or from a new one
-- if there was none: reports under other keys do not touch it.
pub lookup-update_all :
    (config : Config) (key : String) (rs : List Report) (m : Registry)
    → config.enabled ≡ true
    → lookup key (update_all config rs m) ≡ own_breaker config (own_events key rs) (lookup key m)
unfolding update_all own_breaker
lookup-update_all config key [] m e = refl
lookup-update_all config key (r ∷ rs) m e =
    let m' = update_circuit_breaker config r.key r.success r.at m in
    let ih = lookup-update_all config key rs m' e in
    let l = lookup-update config r key m e in
    elim (Bool-cases (string_eq.beq r.key key)) [
      | inl own ↦
          ih
          ∙ rw (l, own) (own_breaker-step config (own_event r) (own_events key rs) (lookup key m))
      | inr other ↦ ih ∙ rw (l, other) refl
    ]

opens_new :
    (config : Config) (ts : List ℕ)
    → HasLimits config
    → open_at (own_breaker config (failures ts) none) ≡ leb config.failure_threshold (length ts)
unfolding own_breaker open_at new_circuit_breaker
opens_new config [] l = ground (arith, l.failures_positive)
opens_new config (t ∷ ts) l =
    let b = new_circuit_breaker config in
    failures-open (t ∷ ts) b l (new-IsSound config l) refl
    ∙ ap (leb config.failure_threshold) (omega arith)

-- With circuit breaking enabled and limits on the thresholds: a key that had no breaker, and whose
-- own reports were failures only, counts as open exactly when there were as many of them as the
-- failure threshold, whatever was reported under other keys.
pub update_all-open :
    (config : Config) (key : String) (rs : List Report) (ts : List ℕ) (m : Registry)
    → config.enabled ≡ true
    → HasLimits config
    → lookup key m ≡ none
    → own_events key rs ≡ failures ts
    → is_circuit_breaker_open config key (update_all config rs m)
      ≡ leb config.failure_threshold (length ts)
unfolding is_circuit_breaker_open
update_all-open config key rs ts m e l missing own =
    simp e (rw (lookup-update_all config key rs m e, missing, own) (opens_new config ts l))

lookup-reset :
    (now : ℕ) (key : String) (m : Registry)
    → lookup key (reset_expired_circuit_breakers now m)
      ≡ elim (lookup key m) [ none ↦ none | some b ↦ some (reset_expired now b) ]
unfolding lookup reset_expired_circuit_breakers
lookup-reset now key [] = refl
lookup-reset now key ((k, b) ∷ m) = ground (arith, lookup-reset now key m)

-- After the sweep a key counts as open exactly when it did before and the timeout of its breaker
-- is not over.
pub reset-open :
    (config : Config) (now : ℕ) (key : String) (m : Registry)
    → (is_circuit_breaker_open config key (reset_expired_circuit_breakers now m) ≡ true) ↔ (
        (b : Breaker) × (lookup key m ≡ some b)
        × (is_circuit_breaker_open config key m ≡ true)
        × (now < b.config.timeout + b.last_failure_time * second))
unfolding is_circuit_breaker_open reset_expired
reset-open config now key m = elim (Option-cases (lookup key m)) [
  | inl e ↦ (
    λ h. absurd (ground (arith, e, lookup-reset now key m)),
    λ h. absurd (ground (arith, e, h.1)),
  )
  | inr (b, e) ↦ (
    λ h. (
      b,
      e,
      ground (arith, e, lookup-reset now key m),
      ground (arith, e, lookup-reset now key m),
    ),
    λ h. ground (arith, e, lookup-reset now key m, h.1, h.2, h.3),
  )
]
