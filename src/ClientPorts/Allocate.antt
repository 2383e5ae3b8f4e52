-- ===== src/ClientPorts/Allocate.antt =====
-- client/internal/ports/manager.go: what `AllocatePort` returns.
use gki_pass.Base.{
  Bool-cases, String, Sum-cases, ap, arith, false, inl, inr, refl, subst, suc, sym, true, zero, ℕ,
  ℕ_discrete, ◌<◌, ◌==◌, ◌^◌, ◌≡◌, ◌≤◌, ◌⊎◌,
}
use gki_pass.Base.Maps.{nat_eq, string_eq}
use gki_pass.Base.Int.{int_eq}
use gki_pass.ClientPorts.{
  Attempt, Manager, ManagerConfig, PortError, PortType, Probe, allocate_available_port,
  allocate_port, allocate_specific_port, generate_random_port, is_error, is_port_available,
  is_reserved_port, not_available,
}
use gki_pass.ClientPorts.Range.{Outcome, allocate_specific_port-Outcome, generate_random_port-range}

allocate_available_port-Outcome :
    (left : ℕ) (attempts : ℕ → Attempt) (port_type : PortType) (owner : String) (m : Manager)
    → Outcome port_type owner m (allocate_available_port left attempts port_type owner m)
unfolding allocate_available_port
allocate_available_port-Outcome zero attempts port_type owner m = refl
allocate_available_port-Outcome (suc left) attempts port_type owner m =
    let met = attempts left in
    let port = generate_random_port m.config met.clock in
    let whole = allocate_available_port (suc left) attempts port_type owner m in
    let one = allocate_specific_port port port_type owner met.second met.now m in
    let ends : (x : Manager × (PortError ⊎ ℕ))
        → whole ≡ x
        → Outcome port_type owner m x
        → Outcome port_type owner m whole =
      λ x e. subst (Outcome port_type owner m) (sym e) in
    let later = allocate_available_port left attempts port_type owner m in
    let rest = allocate_available_port-Outcome left attempts port_type owner m in
    elim (Bool-cases (is_reserved_port m.config port)) [
      | inl e ↦ ends later (ground arith) rest
      | inr e ↦ elim (Bool-cases (is_port_available port_type met.first)) [
        | inr f ↦ ends later (ground arith) rest
        | inl f ↦ elim (Sum-cases one.1) [
          | inl (err, g) ↦ ends later (ground arith) rest
          | inr (p, g) ↦
              ends one (ground arith)
                (allocate_specific_port-Outcome port port_type owner met.second met.now m)
        ]
      ]
    ]

-- `AllocatePort` either fails and leaves the manager as it was, or returns a port in the range that
-- is not reserved, with an entry as occupied by the owner, with one port more counted and the
-- entries of the other ports as they were.
pub allocate_port-Outcome :
    (port_type : PortType) (owner : String) (preferred : ℕ) (probe : Probe) (now : ℕ)
    (attempts : ℕ → Attempt) (m : Manager)
    → Outcome port_type owner m (allocate_port port_type owner preferred probe now attempts m)
unfolding allocate_port
allocate_port-Outcome port_type owner preferred probe now attempts m =
    let whole = allocate_port port_type owner preferred probe now attempts m in
    let one = allocate_specific_port preferred port_type owner probe now m in
    let ends : (x : Manager × (PortError ⊎ ℕ))
        → whole ≡ x
        → Outcome port_type owner m x
        → Outcome port_type owner m whole =
      λ x e. subst (Outcome port_type owner m) (sym e) in
    let automatic = allocate_available_port m.config.retry_attempts attempts port_type owner m in
    let rest = allocate_available_port-Outcome m.config.retry_attempts attempts port_type owner m in
    elim (Bool-cases (preferred == 0)) [
      | inl e ↦ ends automatic (ground arith) rest
      | inr e ↦ elim (Sum-cases one.1) [
        | inr (p, f) ↦
            ends one (ground arith)
              (allocate_specific_port-Outcome preferred port_type owner probe now m)
        | inl (err, f) ↦ elim (Bool-cases (is_error m.config.conflict_policy)) [
          | inl g ↦ ends (m, inl not_available) (ground arith) refl
          | inr g ↦ ends automatic (ground arith) rest
        ]
      ]
    ]

-- An attempt drew a port that is reserved or that one of its two checks found taken.
abbrev pub Missed : PortType → ManagerConfig → Attempt → Type 0
Missed port_type config attempt =
    (is_reserved_port config (generate_random_port config attempt.clock) ≡ true)
    ⊎ (is_port_available port_type attempt.first ≡ false)
    ⊎ (is_port_available port_type attempt.second ≡ false)

-- When the automatic choice over a range within 16 bits that is not empty gives up, each of its
-- attempts drew a port that is reserved or that one of the attempt's two checks found taken.
pub allocate_available_port-Missed :
    (left : ℕ) (attempts : ℕ → Attempt) (port_type : PortType) (owner : String) (m : Manager)
    (e : PortError) (k : ℕ)
    → m.config.min_port ≤ m.config.max_port
    → m.config.max_port < 2 ^ 16
    → (allocate_available_port left attempts port_type owner m).1 ≡ inl e
    → k < left
    → Missed port_type m.config (attempts k)
unfolding allocate_available_port allocate_specific_port
allocate_available_port-Missed zero attempts port_type owner m e k h1 h2 failed h =
    absurd (omega arith)
allocate_available_port-Missed (suc left) attempts port_type owner m e k h1 h2 failed h =
    let met = attempts left in
    let inside = (generate_random_port-range m.config h1 h2).0 met.clock in
    elim (ℕ_discrete k left) [
      | yes here ↦
          subst (λ a. Missed port_type m.config a) (ap attempts (sym here)) (ground (arith, inside))
      | no before ↦
          allocate_available_port-Missed left attempts port_type owner m e k h1 h2 (ground arith)
            (omega arith)
    ]
