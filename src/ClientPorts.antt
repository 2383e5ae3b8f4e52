-- ===== src/ClientPorts.antt =====
-- client/internal/ports/manager.go: the ports that a client allocates and listens on. Whether a port
-- can be bound comes with each check as a `Probe`, what opening a listener's sockets returns as
-- `Sockets`, and the clock as an argument. A negative limit acts as 0. The counters are bit
-- patterns of 64 bits. The metadata of a port and the handlers are left out.
pub mod Range
pub mod Allocate
pub mod Free
pub mod Table
pub mod Tests
use gki_pass.Base.{
  Bool, List, String, [], false, if◌then◌else◌, inl, inr, leb, not, suc, true, zero, ℕ, ◌%◌, ◌&&◌,
  ◌+◌, ◌-◌, ◌==◌, ◌^◌, ◌∷◌, ◌⊎◌,
}
use gki_pass.Base.Maps.{insert, nat_eq, string_eq}
use gki_pass.Base.Int.{int_eq}
use gki_pass.Base.Elements.{any_of}

pub data PortType : Type 0 where
  tcp : PortType
  udp : PortType
  both : PortType

pub data PortStatus : Type 0 where
  available : PortStatus
  occupied : PortStatus
  reserved : PortStatus
  conflict : PortStatus

pub record PortInfo : Type 0 where
  pub port : ℕ
  pub port_type : PortType
  pub status : PortStatus
  pub owner : String
  pub created_at : ℕ
  pub updated_at : ℕ

-- `NewPortInfo`
unfoldable pub new_port_info : ℕ → PortType → String → ℕ → PortInfo
new_port_info port port_type owner now = record {
  port = port;
  port_type = port_type;
  status = available;
  owner = owner;
  created_at = now;
  updated_at = now;
}

-- A listener; `tcp_open` and `udp_open` say which sockets it holds.
pub record PortListener : Type 0 where
  pub port : ℕ
  pub port_type : PortType
  pub owner : String
  pub created_at : ℕ
  pub active : Bool
  pub tcp_open : Bool
  pub udp_open : Bool

-- `NewPortListener`
unfoldable pub new_port_listener : ℕ → PortType → String → ℕ → PortListener
new_port_listener port port_type owner now = record {
  port = port;
  port_type = port_type;
  owner = owner;
  created_at = now;
  active = false;
  tcp_open = false;
  udp_open = false;
}

pub data ConflictPolicy : Type 0 where
  error : ConflictPolicy
  retry : ConflictPolicy
  force : ConflictPolicy

pub record ManagerConfig : Type 0 where
  pub min_port : ℕ
  pub max_port : ℕ
  pub reserved_ports : List ℕ
  pub conflict_policy : ConflictPolicy
  pub retry_attempts : ℕ
  pub max_listeners : ℕ

-- `DefaultManagerConfig`
abbrev pub default_manager_config : ManagerConfig
default_manager_config = record {
  min_port = 10000;
  max_port = 65535;
  reserved_ports = 22 ∷ 80 ∷ 443 ∷ 8080 ∷ 9090 ∷ [];
  conflict_policy = retry;
  retry_attempts = 10;
  max_listeners = 1000;
}

pub record Manager : Type 0 where
  pub config : ManagerConfig
  pub ports : List (ℕ × PortInfo)
  pub listeners : List (ℕ × PortListener)
  pub total_ports : ℕ
  pub occupied_ports : ℕ
  pub conflict_count : ℕ

-- `NewManager`
unfoldable pub new_manager : ManagerConfig → Manager
new_manager config = record {
  config = config;
  ports = [];
  listeners = [];
  total_ports = 0;
  occupied_ports = 0;
  conflict_count = 0;
}

pub data PortError : Type 0 where
  out_of_range : PortError
  is_reserved : PortError
  not_available : PortError
  no_attempt_left : PortError
  not_allocated : PortError
  wrong_owner : PortError
  too_many_listeners : PortError
  has_listener : PortError
  already_started : PortError
  tcp_failed : PortError
  udp_failed : PortError
  no_listener : PortError

-- Whether each protocol could bind the port at the moment of a check.
pub record Probe : Type 0 where
  pub tcp_free : Bool
  pub udp_free : Bool

-- Whether each socket could be opened.
pub record Sockets : Type 0 where
  pub tcp_opens : Bool
  pub udp_opens : Bool

abbrev pub needs_tcp : PortType → Bool
needs_tcp udp = false
needs_tcp _ = true

abbrev pub needs_udp : PortType → Bool
needs_udp tcp = false
needs_udp _ = true

abbrev pub is_force : ConflictPolicy → Bool
is_force force = true
is_force _ = false

abbrev pub is_error : ConflictPolicy → Bool
is_error error = true
is_error _ = false

-- `isPortInRange`
unfoldable pub is_port_in_range : ManagerConfig → ℕ → Bool
is_port_in_range config port = leb config.min_port port && leb port config.max_port

-- `isReservedPort`
unfoldable pub is_reserved_port : ManagerConfig → ℕ → Bool
is_reserved_port config port = any_of (λ taken. port == taken) config.reserved_ports

-- `isPortAvailable`
unfoldable pub is_port_available : PortType → Probe → Bool
is_port_available port_type probe =
    if needs_tcp port_type && not probe.tcp_free
    then false
    else if needs_udp port_type && not probe.udp_free
    then false
    else true

-- `generateRandomPort`: the difference and the sum are taken in 16 bits.
unfoldable pub generate_random_port : ManagerConfig → ℕ → ℕ
generate_random_port config now =
    let span = (config.max_port + (2 ^ 16 - config.min_port)) % 2 ^ 16 in
    (now % (span + 1) % 2 ^ 16 + config.min_port) % 2 ^ 16

-- `allocateSpecificPort`
unfoldable pub allocate_specific_port :
    ℕ → PortType → String → Probe → ℕ → Manager → Manager × (PortError ⊎ ℕ)
allocate_specific_port port port_type owner probe now m =
    if not (is_port_in_range m.config port)
    then (m, inl out_of_range)
    else if is_reserved_port m.config port
    then (m, inl is_reserved)
    else if not (is_port_available port_type probe) && not (is_force m.config.conflict_policy)
    then (m, inl not_available)
    else (
      record m {
        ports =
            insert port (record (new_port_info port port_type owner now) { status = occupied })
              m.ports;
        occupied_ports = (m.occupied_ports + 1) % 2 ^ 64;
      },
      inr port,
    )

-- What an attempt meets: the clock that chooses the port, the two checks of it, and the clock again.
pub record Attempt : Type 0 where
  pub clock : ℕ
  pub first : Probe
  pub second : Probe
  pub now : ℕ

-- `allocateAvailablePort`, with the attempts that are left and what they meet.
unfoldable pub allocate_available_port :
    ℕ → (ℕ → Attempt) → PortType → String → Manager → Manager × (PortError ⊎ ℕ)
allocate_available_port zero attempts port_type owner m = (m, inl no_attempt_left)
allocate_available_port (suc left) attempts port_type owner m =
    let met = attempts left in
    let port = generate_random_port m.config met.clock in
    let later = allocate_available_port left attempts port_type owner m in
    if is_reserved_port m.config port
    then later
    else if is_port_available port_type met.first
    then (let (next, result) = allocate_specific_port port port_type owner met.second met.now m in
        elim result [ inl e ↦ later | inr p ↦ (next, inr p) ])
    else later

-- `AllocatePort`
unfoldable pub allocate_port :
    PortType → String → ℕ → Probe → ℕ → (ℕ → Attempt) → Manager → Manager × (PortError ⊎ ℕ)
allocate_port port_type owner preferred probe now attempts m =
    let automatic = allocate_available_port m.config.retry_attempts attempts port_type owner m in
    if preferred == 0
    then automatic
    else (let (next, result) = allocate_specific_port preferred port_type owner probe now m in
        elim result [
          | inr p ↦ (next, inr p)
          | inl e ↦ if is_error m.config.conflict_policy then (m, inl not_available) else automatic
        ])
