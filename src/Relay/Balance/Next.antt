-- ===== src/Relay/Balance/Next.antt =====
-- `Next` of client/internal/relay/load_balancer.go, over all modes.
use gki_pass.Base.{
  List, Memᴰ, Option-cases, [], arith, false, if-cases, inl, inr, leb, length, refl, true, ℕ, ◌-◌,
  ◌<◌, ◌==◌, ◌^◌, ◌∷◌, ◌≡◌, ◌⊎◌,
}
use gki_pass.Base.Maps.{nat_eq, string_eq}
use gki_pass.Base.Int.{int_eq}
use gki_pass.Base.Signed.{le_64}
use gki_pass.Base.Elements.{All, filter-Mem, filter-none}
use gki_pass.Relay.Balance.{
  Answer, Backend, LoadBalanceMode, LoadBalancer, chosen, get_healthy_backends, ip_hash,
  lb_mode_ip_hash, lb_mode_least_conn, lb_mode_other, lb_mode_random, lb_mode_round_robin,
  lb_mode_weighted, least, least_conn, next, no_backend, random, round_robin, select,
  subtract_weights, total_weight, weighted,
}
use gki_pass.Relay.Balance.Choice.{IsChosen, at_index-IsChosen, least_lem, subtract_weights-Chosen}
use native.Mathlib.Nat.{mod-lt}

-- With a backend there, and none that has as many connections as an integer counts, one of fewest
-- connections is handed out.
pub least_conn_lem :
    (bs : List Backend)
    → 0 < length bs
    → All (λ b. le_64 (2 ^ 63 - 1) b.active_conns ≡ false) bs
    → (b : Backend) × (least_conn bs ≡ chosen b)
      × Memᴰ b bs
      × All (λ c. le_64 b.active_conns c.active_conns ≡ true) bs
unfolding least_conn least
least_conn_lem [] h idle = absurd (omega arith)
least_conn_lem (b ∷ bs) h (low, idle) =
    let (c, eq, m, fewest) = least_lem bs b in (c, ground (arith, eq, low), m, fewest)

module _ (intn : ℕ → ℕ) (intn_below : (n : ℕ) → 0 < n → intn n < n) where
  weighted-IsChosen :
      (bs : List Backend) (counter : ℕ)
      → 0 < length bs
      → total_weight bs 0 < 2 ^ 63
      → IsChosen bs (weighted intn bs counter).1
  unfolding weighted round_robin
  weighted-IsChosen bs counter some_ low =
      let P = λ (r : ℕ × Answer). IsChosen bs r.1 in
      let total = total_weight bs 0 in
      if-cases P (total == 0) (λ e. at_index-IsChosen bs _ (mod-lt _ some_))
        (λ e.
          if-cases P (leb (2 ^ 63) total) (λ big. absurd (ground arith))
            (λ fits. elim (Option-cases (subtract_weights bs (intn total))) [
              | inl none_ ↦
                  let (b, eq, m) = at_index-IsChosen bs 0 some_ in (b, ground (arith, none_, eq), m)
              | inr (b, eq) ↦ (b, ground (arith, eq), subtract_weights-Chosen bs (intn total) eq)
            ]))

  select-IsChosen :
      (mode : LoadBalanceMode) (bs : List Backend) (ip : List ℕ) (counter : ℕ)
      → 0 < length bs
      → total_weight bs 0 < 2 ^ 63
      → All (λ b. le_64 (2 ^ 63 - 1) b.active_conns ≡ false) bs
      → IsChosen bs (select mode intn bs ip counter).1
  unfolding select round_robin random ip_hash
  select-IsChosen lb_mode_round_robin bs ip counter some_ low idle =
      at_index-IsChosen bs _ (mod-lt _ some_)
  select-IsChosen lb_mode_random bs ip counter some_ low idle =
      at_index-IsChosen bs _ (intn_below (length bs) some_)
  select-IsChosen lb_mode_weighted bs ip counter some_ low idle =
      weighted-IsChosen bs counter some_ low
  select-IsChosen lb_mode_least_conn bs ip counter some_ low idle =
      let (b, eq, m, fewest) = least_conn_lem bs some_ idle in (b, eq, m)
  select-IsChosen lb_mode_ip_hash bs ip counter some_ low idle =
      at_index-IsChosen bs _ (mod-lt _ some_)
  select-IsChosen (lb_mode_other name) bs ip counter some_ low idle =
      at_index-IsChosen bs _ (mod-lt _ some_)

-- What `Next` answers: the error when no backend is healthy, or a healthy backend.
abbrev pub IsServed : LoadBalancer → Answer → Type 0
IsServed lb answer =
    ((answer ≡ no_backend) × ((b : Backend) → Memᴰ b lb.backends → b.healthy ≡ false))
    ⊎ ((b : Backend) × (answer ≡ chosen b) × Memᴰ b lb.backends × (b.healthy ≡ true))

-- In every mode, with random numbers below their bounds, weights of the healthy backends, negative
-- ones among them, whose sum as the program adds it up in 64 bits is no negative integer, and on
-- each of these backends fewer connections than the greatest integer, `Next` reports an error
-- exactly when no backend is healthy, and otherwise hands out a healthy backend of the table; it
-- never panics and never hands out nil, and the backends stay as they are.
pub next-IsServed :
    (intn : ℕ → ℕ) (ip : List ℕ) (lb : LoadBalancer)
    → ((n : ℕ) → 0 < n → intn n < n)
    → total_weight (get_healthy_backends lb.backends) 0 < 2 ^ 63
    → All (λ b. le_64 (2 ^ 63 - 1) b.active_conns ≡ false) (get_healthy_backends lb.backends)
    → IsServed lb (next intn ip lb).1 × ((next intn ip lb).0.backends ≡ lb.backends)
unfolding get_healthy_backends next
next-IsServed intn ip lb below low idle =
    let healthy = get_healthy_backends lb.backends in
    if-cases (λ (r : LoadBalancer × Answer). IsServed lb r.1 × (r.0.backends ≡ lb.backends))
      (length healthy == 0)
      (λ e. (inl (refl, λ b m. filter-none (λ b. b.healthy) lb.backends (ground arith) m), refl))
      (λ e.
        let (b, eq, m) =
          select-IsChosen intn below lb.mode healthy ip lb.counter (ground arith) low idle in
        let (found, well) = filter-Mem (λ b. b.healthy) lb.backends m in
        (inr (b, eq, found, well), refl))
