-- ===== src/Relay/Balance.antt =====
-- client/internal/relay/load_balancer.go: the balancer over backends. Ints are bit patterns of 64
-- bits, `fmt.Sprintf("%s:%d", ...)` is the parameter `address`, `rand.Intn` the argument `intn`, and
-- a client's address comes as its runes. A backend is handed out as its value. `LastCheck`, which
-- nothing sets or reads, and the two durations, which nothing reads, are left out.
pub mod Choice
pub mod Next
pub mod Marks
use gki_pass.Base.{
  Bool, List, Option, String, [], false, get_elem?, if◌then◌else◌, leb, length, none, not, some,
  true, ℕ, ◌%◌, ◌*◌, ◌++◌, ◌+◌, ◌-◌, ◌==◌, ◌^◌, ◌∷◌,
}
use gki_pass.Base.Maps.{string_eq}
use gki_pass.Base.Signed.{le_64, sub_64}
use gki_pass.Base.Elements.{filter}

pub data LoadBalanceMode : Type 0 where
  lb_mode_round_robin : LoadBalanceMode
  lb_mode_random : LoadBalanceMode
  lb_mode_weighted : LoadBalanceMode
  lb_mode_least_conn : LoadBalanceMode
  lb_mode_ip_hash : LoadBalanceMode
  lb_mode_other : String → LoadBalanceMode

pub record Backend : Type 0 where
  pub host : String
  pub port : ℕ
  pub weight : ℕ
  pub healthy : Bool
  pub active_conns : ℕ
  pub fail_count : ℕ

pub record LoadBalancer : Type 0 where
  pub mode : LoadBalanceMode
  pub backends : List Backend
  pub counter : ℕ
  pub max_fail_count : ℕ

-- What `Next` answers: the error, a backend, a nil backend without an error, or a panic.
pub data Answer : Type 0 where
  no_backend : Answer
  chosen : Backend → Answer
  nil_backend : Answer
  panicked : Answer

-- `NewLoadBalancer`
unfoldable pub new_load_balancer : LoadBalanceMode → LoadBalancer
new_load_balancer mode = record { mode = mode; backends = []; counter = 0; max_fail_count = 3 }

-- `AddBackend`
unfoldable pub add_backend : String → ℕ → ℕ → LoadBalancer → LoadBalancer
add_backend host port weight lb = record lb {
  backends =
      lb.backends
      ++ record {
        host = host;
        port = port;
        weight = weight;
        healthy = true;
        active_conns = 0;
        fail_count = 0;
      }
        ∷ [];
}

-- `backends[i]`, and the panic out of range.
unfoldable pub at_index : List Backend → ℕ → Answer
at_index backends i = elim (get_elem? backends i) [ none ↦ panicked | some b ↦ chosen b ]

-- `getHealthyBackends`
unfoldable pub get_healthy_backends : List Backend → List Backend
get_healthy_backends backends = filter (λ b. b.healthy) backends

-- `roundRobin`: the counter, and the backend.
unfoldable pub round_robin : List Backend → ℕ → ℕ × Answer
round_robin backends counter =
    let next = (counter + 1) % 2 ^ 64 in (next, at_index backends (sub_64 next 1 % length backends))

-- `random`
unfoldable pub random : (ℕ → ℕ) → List Backend → Answer
random intn backends = at_index backends (intn (length backends))

-- The loop that adds up the weights.
unfoldable pub total_weight : List Backend → ℕ → ℕ
total_weight [] total = total
total_weight (b ∷ bs) total = total_weight bs ((total + b.weight) % 2 ^ 64)

-- The loop that subtracts them from `r`.
unfoldable pub subtract_weights : List Backend → ℕ → Option Backend
subtract_weights [] r = none
subtract_weights (b ∷ bs) r =
    let left = sub_64 r b.weight in
    let later = subtract_weights bs left in if leb (2 ^ 63) left then some b else later

-- `weighted`, where `rand.Intn` panics on a negative total.
unfoldable pub weighted : (ℕ → ℕ) → List Backend → ℕ → ℕ × Answer
weighted intn backends counter =
    let total = total_weight backends 0 in
    if total == 0
    then round_robin backends counter
    else if leb (2 ^ 63) total
    then (counter, panicked)
    else elim (subtract_weights backends (intn total)) [
      | some b ↦ (counter, chosen b)
      | none ↦ (counter, at_index backends 0)
    ]

-- The loop of `leastConn`, with `minConns` and `selected`.
unfoldable pub least : List Backend → ℕ → Option Backend → Option Backend
least [] min_conns selected = selected
least (b ∷ bs) min_conns selected =
    if not (le_64 min_conns b.active_conns)
    then least bs b.active_conns (some b)
    else least bs min_conns selected

-- `leastConn`
unfoldable pub least_conn : List Backend → Answer
least_conn backends = elim (least backends (2 ^ 63 - 1) none) [
  | none ↦ nil_backend
  | some b ↦ chosen b
]

-- The loop of `ipHash` over the runes.
unfoldable pub hash_runes : List ℕ → ℕ → ℕ
hash_runes [] hash = hash
hash_runes (c ∷ cs) hash = hash_runes cs ((hash * 31 + c) % 2 ^ 64)

-- `ipHash`
unfoldable pub ip_hash : List Backend → List ℕ → Answer
ip_hash backends client_ip = at_index backends (hash_runes client_ip 0 % length backends)

-- The switch of `Next`.
unfoldable pub select : LoadBalanceMode → (ℕ → ℕ) → List Backend → List ℕ → ℕ → ℕ × Answer
select lb_mode_round_robin intn backends ip counter = round_robin backends counter
select lb_mode_random intn backends ip counter = (counter, random intn backends)
select lb_mode_weighted intn backends ip counter = weighted intn backends counter
select lb_mode_least_conn intn backends ip counter = (counter, least_conn backends)
select lb_mode_ip_hash intn backends ip counter = (counter, ip_hash backends ip)
select (lb_mode_other name) intn backends ip counter = round_robin backends counter

-- `Next`
unfoldable pub next : (ℕ → ℕ) → List ℕ → LoadBalancer → LoadBalancer × Answer
next intn client_ip lb =
    let healthy = get_healthy_backends lb.backends in
    if length healthy == 0
    then (lb, no_backend)
    else let choice = select lb.mode intn healthy client_ip lb.counter in
      (record lb { counter = choice.0 }, choice.1)

module _ (address : String → ℕ → String) where
  -- The loop of `RemoveBackend`.
  unfoldable pub without : String → List Backend → List Backend
  without addr [] = []
  without addr (b ∷ bs) =
      let rest = without addr bs in
      if string_eq.beq (address b.host b.port) addr then bs else b ∷ rest

  -- `RemoveBackend`
  unfoldable pub remove_backend : String → ℕ → LoadBalancer → LoadBalancer
  remove_backend host port lb = record lb { backends = without (address host port) lb.backends }

  -- The loops of `MarkUnhealthy` and `MarkHealthy`: a change to the first backend of an address.
  unfoldable pub at_first : (Backend → Backend) → String → List Backend → List Backend
  at_first change addr [] = []
  at_first change addr (b ∷ bs) =
      let rest = at_first change addr bs in
      if string_eq.beq (address b.host b.port) addr then change b ∷ bs else b ∷ rest

  -- `MarkUnhealthy`
  unfoldable pub mark_unhealthy : String → ℕ → LoadBalancer → LoadBalancer
  mark_unhealthy host port lb =
      let mark = λ (b : Backend).
        (let count = (b.fail_count + 1) % 2 ^ 64 in
          if le_64 lb.max_fail_count count
          then record b { fail_count = count; healthy = false }
          else record b { fail_count = count }) in
      record lb { backends = at_first mark (address host port) lb.backends }

  -- `MarkHealthy`
  unfoldable pub mark_healthy : String → ℕ → LoadBalancer → LoadBalancer
  mark_healthy host port lb = record lb {
    backends =
        at_first (λ b. record b { healthy = true; fail_count = 0 }) (address host port) lb.backends;
  }
