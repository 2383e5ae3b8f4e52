-- ===== src/ClientPorts/Free.antt =====
-- client/internal/ports/manager.go: `GetAvailablePorts`. Its counter has 16 bits; the probe of a port
-- takes the rounds that are left, as it can change.
pub mod Ends
use gki_pass.Base.{
  List, Option, [], if◌then◌else◌, leb, length, ltb, none, not, some, suc, zero, ℕ, ◌%◌, ◌&&◌, ◌++◌,
  ◌+◌, ◌^◌, ◌∷◌,
}
use gki_pass.Base.Maps.{nat_eq, string_eq}
use gki_pass.Base.Int.{int_eq}
use gki_pass.ClientPorts.{ManagerConfig, Probe, both, is_port_available, is_reserved_port}

-- The loop, on fuel: `none` says that it did not end within the rounds.
unfoldable pub collect : ℕ → ManagerConfig → (ℕ → ℕ → Probe) → ℕ → ℕ → List ℕ → Option (List ℕ)
collect zero config probes count port found = none
collect (suc rounds) config probes count port found =
    let free = not (is_reserved_port config port) && is_port_available both (probes rounds port) in
    let rest =
      collect rounds config probes count ((port + 1) % 2 ^ 16)
        (if free then found ++ (port ∷ []) else found) in
    if leb port config.max_port && ltb (length found) count then rest else some found

-- `GetAvailablePorts`
unfoldable pub get_available_ports : ℕ → ManagerConfig → (ℕ → ℕ → Probe) → ℕ → Option (List ℕ)
get_available_ports rounds config probes count =
    collect rounds config probes count config.min_port []
