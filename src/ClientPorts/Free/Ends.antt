-- ===== src/ClientPorts/Free/Ends.antt =====
-- client/internal/ports/manager.go: when `GetAvailablePorts` ends, and with what.
use gki_pass.Base.{
  Bool-cases, List, [], arith, false, if-cases, if◌then◌else◌, inl, inr, leb, length, length-append,
  ltb, none, not, refl, some, suc, true, zero, ℕ, ◌%◌, ◌&&◌, ◌++◌, ◌+◌, ◌-◌, ◌<◌, ◌^◌, ◌∷◌, ◌≡◌,
  ◌≤◌,
}
use gki_pass.Base.Maps.{nat_eq, string_eq}
use gki_pass.Base.Int.{int_eq}
use gki_pass.Base.Elements.{All}
use gki_pass.ClientPorts.{
  ManagerConfig, Probe, both, is_port_available, is_port_in_range, is_reserved_port,
}
use gki_pass.ClientPorts.Free.{collect, get_available_ports}

-- In the range, and not reserved.
abbrev pub Eligible : ManagerConfig → ℕ → Type 0
Eligible config port =
    (is_port_in_range config port ≡ true) × (is_reserved_port config port ≡ false)

-- Each port is below the later ones.
abbrev pub Rising : List ℕ → Type 0
Rising [] = Unit {0}
Rising (port ∷ rest) = All (λ p. port < p) rest × Rising rest

All-snoc :
    (P : ℕ → Type 0) (ports : List ℕ) (port : ℕ)
    → All P ports
    → P port
    → All P (ports ++ (port ∷ []))
All-snoc P [] port h p = (p, tt)
All-snoc P (q ∷ ports) port (h, k) p = (h, All-snoc P ports port k p)

All-map : (P Q : ℕ → Type 0) (ports : List ℕ) → ((p : ℕ) → P p → Q p) → All P ports → All Q ports
All-map P Q [] f h = tt
All-map P Q (p ∷ ports) f (h, k) = (f p h, All-map P Q ports f k)

Rising-snoc :
    (ports : List ℕ) (port : ℕ)
    → Rising ports
    → All (λ p. p < port) ports
    → Rising (ports ++ (port ∷ []))
Rising-snoc [] port h k = (tt, tt)
Rising-snoc (p ∷ ports) port (h, r) (k, s) =
    (All-snoc (λ q. p < q) ports port h k, Rising-snoc ports port r s)

-- What the loop has found when it comes to a port.
abbrev pub Found : ManagerConfig → ℕ → ℕ → List ℕ → Type 0
Found config count port found =
    (length found ≤ count) × Rising found × All (Eligible config) found × All (λ p. p < port) found

collect-Found :
    (rounds : ℕ) (config : ManagerConfig) (probes : ℕ → ℕ → Probe) (count port : ℕ) (found : List ℕ)
    → config.max_port < 2 ^ 16 - 1
    → config.min_port ≤ port
    → config.max_port + 1 < port + rounds
    → 0 < rounds
    → Found config count port found
    → (out : List ℕ) × (collect rounds config probes count port found ≡ some out)
      × (length out ≤ count)
      × Rising out
      × All (Eligible config) out
unfolding collect is_port_in_range
collect-Found zero config probes count port found h least enough some_left f = absurd (omega arith)
collect-Found (suc rounds) config probes count port found h least enough some_left
      (few, rising, good, below) =
    let free = not (is_reserved_port config port) && is_port_available both (probes rounds port) in
    let grown = found ++ (port ∷ []) in
    elim (Bool-cases (leb port config.max_port && ltb (length found) count)) [
      | inr done ↦ (found, ground arith, few, rising, good)
      | inl more ↦
          let inside : port ≤ config.max_port = ground arith in
          let room : length found < count = ground arith in
          let next : (port + 1) % 2 ^ 16 ≡ port + 1 = omega arith in
          let later : All (λ p. p < port + 1) found =
            All-map (λ p. p < port) (λ p. p < port + 1) found (λ p q. omega arith) below in
          let f : Found config count (port + 1) (if free then grown else found) =
            if-cases (Found config count (port + 1)) {x = grown} {y = found} free
              (λ e. (
                omega (arith, length-append found (port ∷ [])),
                Rising-snoc found port rising below,
                All-snoc (Eligible config) found port good (ground arith, ground arith),
                All-snoc (λ p. p < port + 1) found port later (omega arith),
              ))
              (λ e. (few, rising, good, later)) in
          let (out, e, few2, rising2, good2) =
            collect-Found rounds config probes count (port + 1) (if free then grown else found) h
              (omega arith) (omega arith) (omega arith) f in
          (out, ground (arith, e, next), few2, rising2, good2)
    ]

-- When the range ends before the last port of 16 bits, `GetAvailablePorts` ends, within one round
-- more than the ports up to the end of the range, and returns at most as many ports as it was asked
-- for, rising, each in the range and not reserved.
pub get_available_ports-Rising :
    (rounds : ℕ) (config : ManagerConfig) (probes : ℕ → ℕ → Probe) (count : ℕ)
    → config.max_port < 2 ^ 16 - 1
    → config.max_port + 1 < config.min_port + rounds
    → 0 < rounds
    → (out : List ℕ) × (get_available_ports rounds config probes count ≡ some out)
      × (length out ≤ count)
      × Rising out
      × All (Eligible config) out
unfolding get_available_ports
get_available_ports-Rising rounds config probes count h enough some_left =
    collect-Found rounds config probes count config.min_port [] h (omega arith) enough some_left
      (omega arith, tt, tt, tt)

collect-never :
    (rounds : ℕ) (config : ManagerConfig) (probes : ℕ → ℕ → Probe) (count port : ℕ)
    → config.max_port ≡ 2 ^ 16 - 1
    → 0 < count
    → ((round p : ℕ) → is_port_available both (probes round p) ≡ false)
    → port < 2 ^ 16
    → collect rounds config probes count port [] ≡ none
unfolding collect
collect-never zero config probes count port h some_wanted taken fits = refl
collect-never (suc rounds) config probes count port h some_wanted taken fits =
    let rest =
      collect-never rounds config probes count ((port + 1) % 2 ^ 16) h some_wanted taken
        (omega arith) in
    let busy = taken rounds port in ground (arith, rest, busy)

-- When the range ends at the last port of 16 bits, as it does by default, and no port is free,
-- `GetAvailablePorts` of a positive count does not end, whatever number of rounds it is given.
pub get_available_ports-never :
    (config : ManagerConfig) (probes : ℕ → ℕ → Probe) (count : ℕ)
    → config.max_port ≡ 2 ^ 16 - 1
    → config.min_port < 2 ^ 16
    → 0 < count
    → ((round p : ℕ) → is_port_available both (probes round p) ≡ false)
    → (rounds : ℕ) → get_available_ports rounds config probes count ≡ none
unfolding get_available_ports
get_available_ports-never config probes count h fits some_wanted taken rounds =
    collect-never rounds config probes count config.min_port h some_wanted taken fits
