-- ===== src/Relay/Balance/Marks.antt =====
-- `MarkUnhealthy` and `MarkHealthy` of client/internal/relay/load_balancer.go over many reports.
use gki_pass.Base.{
  Bool-cases, List, Option, String, [], ap, ap₂, arith, false, if-cases, if◌then◌else◌, inl, inr,
  none, refl, some, suc, true, zero, ℕ, ◌%◌, ◌+◌, ◌<◌, ◌^◌, ◌↔◌, ◌∙◌, ◌∷◌, ◌≡◌, ◌≤◌,
}
use gki_pass.Base.Maps.{string_eq}
use gki_pass.Base.Signed.{le_64}
use gki_pass.Relay.Balance.{Backend, LoadBalancer, at_first, mark_unhealthy}

module _ (address : String → ℕ → String) where
  -- A number of failed connections to one address.
  abbrev pub failures : ℕ → String → ℕ → LoadBalancer → LoadBalancer
  failures zero host port lb = lb
  failures (suc n) host port lb = mark_unhealthy address host port (failures n host port lb)

  -- The first backend of an address.
  unfoldable pub first_at : String → List Backend → Option Backend
  first_at addr [] = none
  first_at addr (b ∷ bs) =
      if string_eq.beq (address b.host b.port) addr then some b else first_at addr bs

  first_at-at_first :
      (change : Backend → Backend) (addr : String) (bs : List Backend) {b : Backend}
      → ((b : Backend) → ((change b).host ≡ b.host) × ((change b).port ≡ b.port))
      → first_at addr bs ≡ some b
      → first_at addr (at_first address change addr bs) ≡ some (change b)
  unfolding at_first first_at
  first_at-at_first change addr [] same h = absurd (ground arith)
  first_at-at_first change addr (b ∷ bs) {b = c} same h =
      let (host, port) = same b in
      let kept = ap₂ address host port in
      elim (Bool-cases (string_eq.beq (address b.host b.port) addr)) [
        | inl e ↦
            let test = ap (λ a. string_eq.beq a addr) kept ∙ e in
            let bc : b ≡ c = ground (arith, e, h) in
            let found : first_at addr (at_first address change addr (b ∷ bs)) ≡ some (change b) =
              ground (arith, e, test) in
            found ∙ ap (λ x. some (change x)) bc
        | inr e ↦
            let later = first_at-at_first change addr bs {b = c} same (ground (arith, e, h)) in
            ground (arith, e, later)
      ]

  -- What a failure does to its backend.
  abbrev failed : ℕ → Backend → Backend
  failed limit b =
      let count = (b.fail_count + 1) % 2 ^ 64 in
      if le_64 limit count
      then record b { fail_count = count; healthy = false }
      else record b { fail_count = count }

  failed-place :
      (limit : ℕ) (b : Backend)
      → ((failed limit b).host ≡ b.host) × ((failed limit b).port ≡ b.port)
  failed-place limit b =
      if-cases (λ (r : Backend). (r.host ≡ b.host) × (r.port ≡ b.port))
        (le_64 limit ((b.fail_count + 1) % 2 ^ 64)) (λ e. (refl, refl)) (λ e. (refl, refl))

  failed_lem :
      (limit : ℕ) (b : Backend)
      → limit < 2 ^ 63
      → b.fail_count + 1 < 2 ^ 63
      → ((failed limit b).fail_count ≡ b.fail_count + 1)
        × (((failed limit b).healthy ≡ true) ↔ ((b.healthy ≡ true) × (b.fail_count + 1 < limit)))
  failed_lem limit b low fits =
      if-cases
        (λ (r : Backend).
          (r.fail_count ≡ b.fail_count + 1)
          × ((r.healthy ≡ true) ↔ ((b.healthy ≡ true) × (b.fail_count + 1 < limit))))
        (le_64 limit ((b.fail_count + 1) % 2 ^ 64))
        (λ e.
          let reached : limit ≤ b.fail_count + 1 = ground (arith, e, low, fits) in
          (
            omega arith,
            (λ no. absurd (ground (arith, no)), λ both. absurd (omega (arith, both.1, reached))),
          ))
        (λ e.
          let left : b.fail_count + 1 < limit = ground (arith, e, low, fits) in
          (omega arith, (λ live. (live, left), λ both. both.0)))

  -- A healthy backend below the limit, the first of its address, as long as the counter of
  -- failures does not overflow: `n` failures in a row are counted, and the backend stays healthy
  -- exactly while their number with the earlier ones is below the limit.
  pub failures_lem :
      (n : ℕ) (host : String) (port : ℕ) (lb : LoadBalancer) (b : Backend)
      → first_at (address host port) lb.backends ≡ some b
      → b.healthy ≡ true
      → b.fail_count < lb.max_fail_count
      → lb.max_fail_count < 2 ^ 63
      → b.fail_count + n < 2 ^ 63
      → (c : Backend) × (first_at (address host port) (failures n host port lb).backends ≡ some c)
        × ((failures n host port lb).max_fail_count ≡ lb.max_fail_count)
        × (c.fail_count ≡ b.fail_count + n)
        × ((c.healthy ≡ true) ↔ (b.fail_count + n < lb.max_fail_count))
  unfolding mark_unhealthy
  failures_lem zero host port lb b h well below limit fits =
      (b, h, refl, omega arith, (λ e. omega arith, λ e. well))
  failures_lem (suc n) host port lb b h well below limit fits =
      let (c, at, same, count, live) =
        failures_lem n host port lb b h well below limit (omega arith) in
      let limit_now = (failures n host port lb).max_fail_count in
      let found =
        first_at-at_first (failed limit_now) (address host port) (failures n host port lb).backends
          {b = c} (failed-place limit_now) at in
      let (counted, lives) = failed_lem limit_now c (omega arith) (omega arith) in
      (
        failed limit_now c,
        found,
        same,
        omega (arith, counted, count),
        (
          λ yes. omega (arith, (lives.0 yes).1, count, same),
          λ more. lives.1 (live.1 (omega arith), omega (arith, more, count, same)),
        ),
      )
