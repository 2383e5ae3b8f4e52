-- ===== src/ClientPorts/Table.antt =====
-- client/internal/ports/manager.go: listeners, releases and scans.
pub mod Release
use gki_pass.Base.{
  List, Option, String, [], false, if◌then◌else◌, leb, length, none, not, some, true, ℕ, ◌%◌, ◌&&◌,
  ◌+◌, ◌^◌, ◌||◌, ◌∷◌,
}
use gki_pass.Base.Maps.{delete, insert, lookup, nat_eq, string_eq}
use gki_pass.Base.Int.{int_eq}
use gki_pass.Base.Signed.{sub_64}
use gki_pass.ClientPorts.{
  Manager, PortError, PortInfo, PortListener, PortStatus, PortType, Probe, Sockets, already_started,
  available, both, conflict, has_listener, is_port_available, needs_tcp, needs_udp, new_port_info,
  new_port_listener, no_listener, not_allocated, occupied, reserved, tcp_failed, too_many_listeners,
  udp_failed, wrong_owner,
}

-- `PortListener.Start`; resolving the address counts as a part of opening the UDP socket.
unfoldable pub listener_start : Sockets → PortListener → PortListener × Option PortError
listener_start opens l =
    if l.active
    then (l, some already_started)
    else if needs_tcp l.port_type && not opens.tcp_opens
    then (l, some tcp_failed)
    else if needs_udp l.port_type && not opens.udp_opens
    then (l, some udp_failed)
    else (
      record l {
        tcp_open = needs_tcp l.port_type || l.tcp_open;
        udp_open = needs_udp l.port_type || l.udp_open;
        active = true;
      },
      none,
    )

-- `PortListener.Stop`
unfoldable pub listener_stop : PortListener → PortListener
listener_stop l =
    if not l.active then l else record l { active = false; tcp_open = false; udp_open = false }

-- `ReleasePort`, with the listener that it stops.
unfoldable pub release_port :
    ℕ → String → Manager → Manager × Option PortListener × Option PortError
release_port port owner m = elim (lookup port m.ports) [
  | none ↦ (m, none, some not_allocated)
  | some info ↦
      if not (string_eq.beq info.owner owner)
      then (m, none, some wrong_owner)
      else (let stopped : Option PortListener = elim (lookup port m.listeners) [
        | none ↦ none
        | some l ↦ some (listener_stop l)
      ] in
          (
            record m {
              listeners = delete port m.listeners;
              ports = delete port m.ports;
              occupied_ports = sub_64 m.occupied_ports 1;
            },
            stopped,
            none,
          ))
]

-- `StartListener`
unfoldable pub start_listener :
    ℕ → PortType → String → Sockets → ℕ → Manager → Manager × Option PortError
start_listener port port_type owner opens now m =
    if leb m.config.max_listeners (length m.listeners)
    then (m, some too_many_listeners)
    else (elim (lookup port m.listeners) [
      | some l ↦ (m, some has_listener)
      | none ↦
          let (started, e) = listener_start opens (new_port_listener port port_type owner now) in
          elim e [
            | some failed ↦ (m, some failed)
            | none ↦
                let listeners = insert port started m.listeners in
                elim (lookup port m.ports) [
                  | some info ↦ (
                    record m {
                      listeners = listeners;
                      ports = insert port (record info { status = occupied }) m.ports;
                    },
                    none,
                  )
                  | none ↦ (
                    record m {
                      listeners = listeners;
                      ports =
                          insert port
                            (record (new_port_info port port_type owner now) { status = occupied })
                            m.ports;
                      occupied_ports = (m.occupied_ports + 1) % 2 ^ 64;
                    },
                    none,
                  )
                ]
          ]
    ])

-- `StopListener`
unfoldable pub stop_listener : ℕ → String → Manager → Manager × Option PortError
stop_listener port owner m = elim (lookup port m.listeners) [
  | none ↦ (m, some no_listener)
  | some l ↦ if not (string_eq.beq l.owner owner) then (m, some wrong_owner) else (
    record m {
      listeners = delete port m.listeners;
      ports = elim (lookup port m.ports) [
        | none ↦ m.ports
        | some info ↦ insert port (record info { status = available }) m.ports
      ];
    },
    none,
  )
]

-- `initReservedPorts`
unfoldable pub reserve : List ℕ → ℕ → List (ℕ × PortInfo) → List (ℕ × PortInfo)
reserve [] now ports = ports
reserve (port ∷ rest) now ports =
    reserve rest now
      (insert port (record (new_port_info port both "system" now) { status = reserved }) ports)

unfoldable pub init_reserved_ports : ℕ → Manager → Manager
init_reserved_ports now m =
    let ports = reserve m.config.reserved_ports now m.ports in
    record m { ports = ports; total_ports = length ports % 2 ^ 64 }

-- `scanPort`
unfoldable pub scan_port : ℕ → Probe → ℕ → Manager → Manager
scan_port port probe now m = elim (lookup port m.ports) [
  | none ↦ m
  | some info ↦
      let free = is_port_available info.port_type probe in
      let stored : PortStatus → List (ℕ × PortInfo) =
        λ status. insert port (record info { status = status; updated_at = now }) m.ports in
      elim info.status [
        | occupied ↦ elim (lookup port m.listeners) [
          | some l ↦ record m { ports = stored occupied }
          | none ↦
              if free
              then record m { ports = stored available; occupied_ports = sub_64 m.occupied_ports 1 }
              else record m { ports = stored occupied }
        ]
        | available ↦
            if not free
            then record m {
              ports = stored conflict;
              conflict_count = (m.conflict_count + 1) % 2 ^ 64;
            }
            else record m { ports = stored available }
        | reserved ↦ record m { ports = stored reserved }
        | conflict ↦ record m { ports = stored conflict }
      ]
]

-- `scanPorts`, over the ports of the table as the scan finds them.
unfoldable pub scan_ports : List ℕ → (ℕ → Probe) → ℕ → Manager → Manager
scan_ports [] probes now m = m
scan_ports (port ∷ rest) probes now m =
    scan_ports rest probes now (scan_port port (probes port) now m)
