-- ===== src/ClientPorts/Tests.antt =====
-- client/internal/ports/manager.go: runs, and the theorems at concrete inputs.
use gki_pass.Base.{
  List, [], arith, false, if◌then◌else◌, inr, length, none, refl, some, true, ℕ, ◌==◌, ◌∷◌, ◌≡◌,
  ◌≤◌,
}
use gki_pass.Base.Maps.{lookup, nat_eq, string_eq}
use gki_pass.Base.Int.{int_eq}
use gki_pass.Base.Elements.{All}
use gki_pass.ClientPorts.{
  Attempt, Manager, ManagerConfig, Probe, Sockets, allocate_available_port, allocate_port,
  allocate_specific_port, both, default_manager_config, generate_random_port, is_port_available,
  is_port_in_range, is_reserved_port, new_port_listener, retry, tcp, udp,
}
use gki_pass.ClientPorts.Range.{Outcome}
use gki_pass.ClientPorts.Allocate.{allocate_port-Outcome}
use gki_pass.ClientPorts.Table.{
  listener_start, release_port, scan_port, start_listener, stop_listener,
}
use gki_pass.ClientPorts.Table.Release.{
  Lost, Undone, release_port-scan_port, release_port-start_listener,
}
use gki_pass.ClientPorts.Free.{collect, get_available_ports}
use gki_pass.ClientPorts.Free.Ends.{
  Eligible, Rising, get_available_ports-Rising, get_available_ports-never,
}

abbrev config : ManagerConfig
config = record {
  min_port = 10;
  max_port = 14;
  reserved_ports = 11 ∷ [];
  conflict_policy = retry;
  retry_attempts = 2;
  max_listeners = 3;
}

abbrev manager : Manager
manager = record {
  config = config;
  ports = [];
  listeners = [];
  total_ports = 0;
  occupied_ports = 5;
  conflict_count = 0;
}

abbrev open_probe : Probe
open_probe = record { tcp_free = true; udp_free = true }

abbrev taken_probe : Probe
taken_probe = record { tcp_free = false; udp_free = false }

-- The clock draws port 13.
abbrev attempt : Attempt
attempt = record { clock = 8; first = open_probe; second = open_probe; now = 9 }

abbrev attempts : ℕ → Attempt
attempts k = attempt

-- The port that is asked for is reserved, so that the clock chooses.
allocates : (allocate_port tcp "relay" 11 open_probe 7 attempts manager).1 ≡ inr 13
unfolding allocate_port allocate_specific_port is_port_in_range is_reserved_port
    allocate_available_port generate_random_port is_port_available
allocates = refl

allocate_port-Outcome_example :
    Outcome tcp "relay" manager (allocate_port tcp "relay" 11 open_probe 7 attempts manager)
allocate_port-Outcome_example = allocate_port-Outcome tcp "relay" 11 open_probe 7 attempts manager

abbrev sockets : Sockets
sockets = record { tcp_opens = true; udp_opens = true }

release_port-start_listener_example :
    Undone 12 "relay" manager
      (stop_listener 12 "relay" (start_listener 12 both "relay" sockets 7 manager).0)
unfolding start_listener lookup listener_start new_port_listener
release_port-start_listener_example =
    release_port-start_listener 12 both "relay" sockets 7 manager (omega arith) refl refl

release_port-scan_port_example : Lost manager (
    release_port 12 "relay"
      (scan_port 12 open_probe 8 (allocate_specific_port 12 udp "relay" open_probe 7 manager).0))
unfolding allocate_specific_port lookup is_port_available is_port_in_range is_reserved_port
release_port-scan_port_example =
    release_port-scan_port 12 udp "relay" open_probe open_probe 7 8 manager (omega arith) refl refl
      refl

abbrev probes : ℕ → ℕ → Probe
probes round port = if port == 12 then taken_probe else open_probe

collects : get_available_ports 9 config probes 2 ≡ some (10 ∷ 13 ∷ [])
unfolding get_available_ports collect is_reserved_port is_port_available
collects = refl

get_available_ports-Rising_example :
    (out : List ℕ) × (get_available_ports 9 config probes 2 ≡ some out)
    × (length out ≤ 2)
    × Rising out
    × All (Eligible config) out
get_available_ports-Rising_example =
    get_available_ports-Rising 9 config probes 2 (omega arith) (omega arith) (omega arith)

get_available_ports-never_example :
    get_available_ports 1000 default_manager_config (λ round port. taken_probe) 1 ≡ none
unfolding is_port_available
get_available_ports-never_example =
    get_available_ports-never default_manager_config (λ round port. taken_probe) 1 refl
      (omega arith) (omega arith) (λ round port. refl) 1000
