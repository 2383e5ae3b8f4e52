-- ===== src/Relay/Tests.antt =====
-- client/internal/relay: runs, and the theorems at concrete inputs.
use gki_pass.Base.{
  String, [], arith, false, length, map, refl, some, true, ℕ, ◌+◌, ◌-◌, ◌<◌, ◌^◌, ◌↔◌, ◌∷◌, ◌≡◌,
}
use gki_pass.Base.Maps.{string_eq}
use gki_pass.Relay.Balance.{
  Backend, LoadBalanceMode, LoadBalancer, add_backend, at_first, at_index, chosen,
  get_healthy_backends, lb_mode_least_conn, lb_mode_random, lb_mode_round_robin, lb_mode_weighted,
  least, least_conn, mark_healthy, new_load_balancer, next, remove_backend, round_robin, select,
  subtract_weights, total_weight, weighted, without,
}
use gki_pass.Relay.Balance.Next.{IsServed, next-IsServed}
use gki_pass.Relay.Balance.Marks.{failures, failures_lem, first_at}
use Prim.{tt}

abbrev address : String → ℕ → String
address host port = host

abbrev two : LoadBalancer
two = add_backend "b" 80 (2 ^ 64 - 1) (add_backend "a" 80 3 (new_load_balancer lb_mode_weighted))

abbrev busy : Backend
busy = record {
  host = "a";
  port = 80;
  weight = 3;
  healthy = true;
  active_conns = 5;
  fail_count = 1;
}

abbrev idle : Backend
idle = record {
  host = "b";
  port = 80;
  weight = 4;
  healthy = true;
  active_conns = 2;
  fail_count = 0;
}

abbrev gone : Backend
gone = record {
  host = "c";
  port = 80;
  weight = 9;
  healthy = false;
  active_conns = 0;
  fail_count = 3;
}

abbrev table : LoadBalanceMode → LoadBalancer
table mode = record {
  mode = mode;
  backends = gone ∷ busy ∷ idle ∷ [];
  counter = 2 ^ 64 - 1;
  max_fail_count = 3;
}

-- The draw that is last below its bound.
abbrev last : ℕ → ℕ
last n = n - 1

next_weighted : (next last [] (table lb_mode_weighted)).1 ≡ chosen idle
unfolding next get_healthy_backends select weighted total_weight subtract_weights
next_weighted = refl

next_least : (next last [] (table lb_mode_least_conn)).1 ≡ chosen idle
unfolding next get_healthy_backends select least_conn least
next_least = refl

next_turn : (next last [] (table lb_mode_round_robin)).1 ≡ chosen idle
unfolding next get_healthy_backends select round_robin at_index
next_turn = refl

-- With the weights 3 and -1.
next_negative : (next last [] two).1 ≡ chosen (record busy { active_conns = 0; fail_count = 0 })
unfolding next get_healthy_backends add_backend new_load_balancer select weighted total_weight
    subtract_weights
next_negative = refl

removed : length (remove_backend address "b" 80 (table lb_mode_random)).backends ≡ 2
unfolding remove_backend without
removed = refl

restored :
    map (λ b. b.healthy) (mark_healthy address "c" 80 (table lb_mode_random)).backends
    ≡ true ∷ true ∷ true ∷ []
unfolding mark_healthy at_first
restored = refl

last_below : (n : ℕ) → 0 < n → last n < n
last_below n h = omega arith

next-IsServed_example :
    IsServed two (next last [] two).1 × ((next last [] two).0.backends ≡ two.backends)
unfolding get_healthy_backends total_weight add_backend new_load_balancer
next-IsServed_example = next-IsServed last [] two last_below (omega arith) (refl, (refl, tt))

failures_lem_example :
    (c : Backend) × (first_at address
        (address "b" 80)
        (failures address 3 "b" 80 (table lb_mode_random)).backends
      ≡ some c)
    × ((failures address 3 "b" 80 (table lb_mode_random)).max_fail_count ≡ 3)
    × (c.fail_count ≡ 0 + 3)
    × ((c.healthy ≡ true) ↔ (0 + 3 < 3))
unfolding first_at
failures_lem_example =
    failures_lem address 3 "b" 80 (table lb_mode_random) idle refl refl (omega arith) (omega arith)
      (omega arith)
