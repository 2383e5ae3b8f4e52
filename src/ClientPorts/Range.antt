-- ===== src/ClientPorts/Range.antt =====
-- client/internal/ports/manager.go: the ports that are allocated.
use gki_pass.Base.{
  Bool-cases, String, arith, false, inl, inr, not, refl, some, subst, sym, true, ℕ, ◌%◌, ◌&&◌, ◌+◌,
  ◌-◌, ◌<◌, ◌^◌, ◌≡◌, ◌≢◌, ◌≤◌, ◌⊎◌,
}
use gki_pass.Base.Maps.{insert, lookup, lookup-insert, nat_eq, string_eq}
use gki_pass.Base.Int.{int_eq}
use native.Mathlib.Nat.{mod-eq_of_lt, mod-lt, zero-lt-suc}
use gki_pass.ClientPorts.{
  Manager, ManagerConfig, PortError, PortInfo, PortType, Probe, allocate_specific_port,
  generate_random_port, is_force, is_port_available, is_port_in_range, is_reserved,
  is_reserved_port, new_port_info, not_available, occupied, out_of_range,
}

-- For a range within 16 bits that is not empty, a port chosen by the clock lies in it, and each of
-- its ports is chosen at some time.
pub generate_random_port-range :
    (config : ManagerConfig)
    → config.min_port ≤ config.max_port
    → config.max_port < 2 ^ 16
    → ((now : ℕ) → is_port_in_range config (generate_random_port config now) ≡ true)
      × ((port : ℕ)
          → is_port_in_range config port ≡ true
          → (now : ℕ) × (generate_random_port config now ≡ port))
unfolding generate_random_port is_port_in_range
generate_random_port-range config h k = (inside, λ port e. (port - config.min_port, chosen port e))
  where
    span :
        (config.max_port + (2 ^ 16 - config.min_port)) % 2 ^ 16 ≡ config.max_port - config.min_port
    span = omega arith

    inside : (now : ℕ) → is_port_in_range config (generate_random_port config now) ≡ true
    inside now =
        let width = (config.max_port + (2 ^ 16 - config.min_port)) % 2 ^ 16 in
        let least = mod-lt now (zero-lt-suc width) in ground (arith, span, least)

    chosen :
        (port : ℕ)
        → is_port_in_range config port ≡ true
        → generate_random_port config (port - config.min_port) ≡ port
    chosen port e =
        let width = (config.max_port + (2 ^ 16 - config.min_port)) % 2 ^ 16 in
        let fits : port - config.min_port < width + 1 = ground (arith, span) in
        let least = mod-eq_of_lt fits in ground (arith, span, least)

-- The port is in the range and not reserved, and the table has it as occupied by the owner.
abbrev pub Allocated : PortType → String → ManagerConfig → ℕ → Manager → Type 0
Allocated port_type owner config port m =
    (is_port_in_range config port ≡ true)
    × (is_reserved_port config port ≡ false)
    × ((info : PortInfo) × (lookup port m.ports ≡ some info)
        × (info.port ≡ port)
        × (info.port_type ≡ port_type)
        × (info.status ≡ occupied)
        × (info.owner ≡ owner))

-- Either the table is as it was and there is an error, or a port has been allocated.
abbrev pub Outcome : PortType → String → Manager → Manager × (PortError ⊎ ℕ) → Type 0
Outcome port_type owner m (later, inl e) = later ≡ m
Outcome port_type owner m (later, inr port) =
    Allocated port_type owner m.config port later
    × (later.occupied_ports ≡ (m.occupied_ports + 1) % 2 ^ 64)
    × ((other : ℕ) → other ≢ port → lookup other later.ports ≡ lookup other m.ports)

pub allocate_specific_port-Outcome :
    (port : ℕ) (port_type : PortType) (owner : String) (probe : Probe) (now : ℕ) (m : Manager)
    → Outcome port_type owner m (allocate_specific_port port port_type owner probe now m)
unfolding allocate_specific_port new_port_info
allocate_specific_port-Outcome port port_type owner probe now m =
    let info : PortInfo = record (new_port_info port port_type owner now) { status = occupied } in
    let later : Manager = record m {
      ports = insert port info m.ports;
      occupied_ports = (m.occupied_ports + 1) % 2 ^ 64;
    } in
    let result = allocate_specific_port port port_type owner probe now m in
    let stored = lookup-insert port port info m.ports in
    let ends : (x : Manager × (PortError ⊎ ℕ))
        → result ≡ x
        → Outcome port_type owner m x
        → Outcome port_type owner m result =
      λ x e. subst (Outcome port_type owner m) (sym e) in
    elim (Bool-cases (is_port_in_range m.config port)) [
      | inr e ↦ ends (m, inl out_of_range) (ground arith) refl
      | inl e ↦ elim (Bool-cases (is_reserved_port m.config port)) [
        | inl f ↦ ends (m, inl is_reserved) (ground arith) refl
        | inr f ↦
            elim (Bool-cases (
              not (is_port_available port_type probe) && not (is_force m.config.conflict_policy))) [
                | inl g ↦ ends (m, inl not_available) (ground arith) refl
                | inr g ↦
                    ends (later, inr port) (ground arith)
                      (
                        (e, f, (info, ground (arith, stored), refl, refl, refl, refl)),
                        refl,
                        λ other h. ground (
                          arith,
                          lookup-insert port other info m.ports,
                          nat_eq.beq_iff port other,
                        ),
                      )
              ]
      ]
    ]
