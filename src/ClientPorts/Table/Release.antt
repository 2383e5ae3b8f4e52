-- ===== src/ClientPorts/Table/Release.antt =====
-- client/internal/ports/manager.go: what a release undoes.
use mathlib.Core.Option
use gki_pass.Base.{
  Bool-cases, Option, Option-cases, String, arith, false, if◌then◌else◌, inl, inr, none, refl, some,
  subst, sym, true, ℕ, ◌%◌, ◌+◌, ◌<◌, ◌==◌, ◌^◌, ◌||◌, ◌≡◌, ◌≢◌, ◌⊎◌,
}
use gki_pass.Base.Maps.{delete, insert, lookup, lookup-delete, lookup-insert, nat_eq, string_eq}
use gki_pass.Base.Int.{int_eq}
use gki_pass.Base.Signed.{sub_64}
use gki_pass.ClientPorts.{
  Manager, PortError, PortInfo, PortListener, PortType, Probe, Sockets, allocate_specific_port,
  available, is_port_available, needs_tcp, needs_udp, new_port_info, new_port_listener,
  not_allocated, occupied, wrong_owner,
}
use gki_pass.ClientPorts.Table.{
  listener_start, listener_stop, release_port, scan_port, start_listener, stop_listener,
}
use mathlib.Core.Option
use mathlib.Core.Option

-- A release either fails and changes nothing, because the port has no entry or one of another owner,
-- or it takes the port's entry and listener away, leaves those of the other ports, counts one port
-- less, and returns the stopped listener.
abbrev pub Released :
    ℕ → String → Manager → Manager × Option PortListener × Option PortError → Type 0
Released port owner m (later, stopped, some e) =
    (later ≡ m)
    × ((lookup port m.ports ≡ none)
        ⊎ ((info : PortInfo) × (lookup port m.ports ≡ some info) × (info.owner ≢ owner)))
Released port owner m (later, stopped, none) =
    ((info : PortInfo) × (lookup port m.ports ≡ some info) × (info.owner ≡ owner))
    × (later.occupied_ports ≡ sub_64 m.occupied_ports 1)
    × ((other : ℕ)
        → (lookup other later.ports ≡ (if port == other then none else lookup other m.ports))
          × (lookup other later.listeners
              ≡ (if port == other then none else lookup other m.listeners)))
    × (stopped ≡ Option.map listener_stop (lookup port m.listeners))

pub release_port-Released :
    (port : ℕ) (owner : String) (m : Manager) → Released port owner m (release_port port owner m)
unfolding release_port
release_port-Released port owner m =
    let result = release_port port owner m in
    let ends : (x : Manager × Option PortListener × Option PortError)
        → result ≡ x
        → Released port owner m x
        → Released port owner m result =
      λ x e. subst (Released port owner m) (sym e) in
    elim (Option-cases (lookup port m.ports)) [
      | inl e ↦ ends (m, none, some not_allocated) (ground arith) (refl, inl e)
      | inr (info, e) ↦
          let name = string_eq.beq_iff info.owner owner in
          elim (Bool-cases (string_eq.beq info.owner owner)) [
            | inr f ↦
                ends (m, none, some wrong_owner) (ground arith)
                  (refl, inr (info, e, λ k. absurd (ground (arith, name.1 k))))
            | inl f ↦
                ends
                  (
                    record m {
                      listeners = delete port m.listeners;
                      ports = delete port m.ports;
                      occupied_ports = sub_64 m.occupied_ports 1;
                    },
                    Option.map listener_stop (lookup port m.listeners),
                    none,
                  )
                  (ground arith)
                  (
                    (info, e, name.0 f),
                    refl,
                    λ other.
                        (lookup-delete port other m.ports, lookup-delete port other m.listeners),
                    refl,
                  )
          ]
    ]

-- No error, and each port's entry and listener and the count as they were.
abbrev pub Restored : Manager → Manager × Option PortListener × Option PortError → Type 0
Restored m (left, stopped, e) =
    (e ≡ none)
    × (left.occupied_ports ≡ m.occupied_ports)
    × ((other : ℕ)
        → (lookup other left.ports ≡ lookup other m.ports)
          × (lookup other left.listeners ≡ lookup other m.listeners))

abbrev pub Undone : ℕ → String → Manager → Manager × Option PortError → Type 0
Undone port owner m (ended, e) = (e ≡ none) × Restored m (release_port port owner ended)

-- Listening on a port that has no entry, ending that and releasing it succeeds and leaves each port
-- with the entry and the listener of before, and the count of ports, of 64 bits, as it was.
pub release_port-start_listener :
    (port : ℕ) (port_type : PortType) (owner : String) (opens : Sockets) (now : ℕ) (m : Manager)
    → m.occupied_ports < 2 ^ 64
    → lookup port m.ports ≡ none
    → (start_listener port port_type owner opens now m).1 ≡ none
    → Undone port owner m
        (stop_listener port owner (start_listener port port_type owner opens now m).0)
unfolding start_listener stop_listener release_port listener_start new_port_info new_port_listener
release_port-start_listener port port_type owner opens now m h fresh ok =
    let l : PortListener = record (new_port_listener port port_type owner now) {
      tcp_open = needs_tcp port_type || false;
      udp_open = needs_udp port_type || false;
      active = true;
    } in
    let info : PortInfo = record (new_port_info port port_type owner now) { status = occupied } in
    let m1 : Manager = record m {
      listeners = insert port l m.listeners;
      ports = insert port info m.ports;
      occupied_ports = (m.occupied_ports + 1) % 2 ^ 64;
    } in
    let m2 : Manager = record m1 {
      listeners = delete port m1.listeners;
      ports = insert port (record info { status = available }) m1.ports;
    } in
    let m3 : Manager = record m2 {
      listeners = delete port m2.listeners;
      ports = delete port m2.ports;
      occupied_ports = sub_64 m2.occupied_ports 1;
    } in
    let started : start_listener port port_type owner opens now m ≡ (m1, none) = ground arith in
    let name = (string_eq.beq_iff owner owner).1 refl in
    let held = lookup-insert port port l m.listeners in
    let entry = lookup-insert port port info m.ports in
    let entry2 = lookup-insert port port (record info { status = available }) m1.ports in
    let ended : stop_listener port owner m1 ≡ (m2, none) = ground (arith, held, entry, name) in
    let none_left = lookup-delete port port m1.listeners in
    let gone : release_port port owner m2 ≡ (m3, none, none) =
      ground (arith, none_left, entry2, name) in
    let back : Restored m (m3, none, none) = (
      refl,
      omega arith,
      λ other. (
        ground (
          arith,
          lookup-delete port other m2.ports,
          lookup-insert port other (record info { status = available }) m1.ports,
          lookup-insert port other info m.ports,
          nat_eq.beq_iff port other,
        ),
        ground (
          arith,
          lookup-delete port other m2.listeners,
          lookup-delete port other m1.listeners,
          lookup-insert port other l m.listeners,
          nat_eq.beq_iff port other,
        ),
      ),
    ) in
    subst (λ r. Undone port owner m (stop_listener port owner r.0)) (sym started)
      (subst (Undone port owner m) (sym ended) (refl, subst (Restored m) (sym gone) back))

abbrev pub Lost : Manager → Manager × Option PortListener × Option PortError → Type 0
Lost m (left, stopped, e) = (e ≡ none) × (left.occupied_ports ≡ sub_64 m.occupied_ports 1)

-- A port that is allocated, that a scan finds free and that is then released is taken off the count
-- twice: if it has no listener, the count is one less than before the allocation.
pub release_port-scan_port :
    (port : ℕ) (port_type : PortType) (owner : String) (probe free : Probe) (now later : ℕ)
    (m : Manager)
    → m.occupied_ports < 2 ^ 64
    → lookup port m.listeners ≡ none
    → is_port_available port_type free ≡ true
    → (allocate_specific_port port port_type owner probe now m).1 ≡ inr port
    → Lost m (
        release_port port owner
          (scan_port port free later (allocate_specific_port port port_type owner probe now m).0))
unfolding allocate_specific_port scan_port release_port new_port_info
release_port-scan_port port port_type owner probe free now later m h silent unbound ok =
    let info : PortInfo = record (new_port_info port port_type owner now) { status = occupied } in
    let m1 : Manager = record m {
      ports = insert port info m.ports;
      occupied_ports = (m.occupied_ports + 1) % 2 ^ 64;
    } in
    let m2 : Manager = record m1 {
      ports = insert port (record info { status = available; updated_at = later }) m1.ports;
      occupied_ports = sub_64 m1.occupied_ports 1;
    } in
    let allocated : (allocate_specific_port port port_type owner probe now m).0 ≡ m1 =
      ground arith in
    let entry = lookup-insert port port info m.ports in
    let scanned : scan_port port free later m1 ≡ m2 = ground (arith, entry) in
    let entry2 =
      lookup-insert port port (record info { status = available; updated_at = later }) m1.ports in
    let name = (string_eq.beq_iff owner owner).1 refl in
    let counted : sub_64 m2.occupied_ports 1 ≡ sub_64 m.occupied_ports 1 = omega arith in
    let gone : Lost m (release_port port owner m2) = ground (arith, entry2, name, counted) in
    subst (λ x. Lost m (release_port port owner (scan_port port free later x))) (sym allocated)
      (subst (λ x. Lost m (release_port port owner x)) (sym scanned) gone)
