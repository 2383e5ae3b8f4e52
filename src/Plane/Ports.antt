-- ===== src/Plane/Ports.antt =====
-- plane/internal/service/port_manager.go: the ports that the tunnels of a group share.
-- A map of maps as an association list of association lists; the lock makes each operation one step,
-- the singleton and the logs are left out.
pub mod Owners
use gki_pass.Base.{
  Bool, List, Option, String, [], false, if◌then◌else◌, none, some, true, ◌||◌, ◌∷◌,
}
use gki_pass.Base.Maps.{delete, insert, lookup, string_eq}
use gki_pass.Base.Int.{int_eq, ltb_ℤ, pos, ℤ}

-- group -> port -> tunnel
abbrev pub PortManager : Type 0
PortManager = List (String × List (ℤ × String))

-- The fields of a tunnel that are read here.
pub record Tunnel : Type 0 where
  pub id : String
  pub ingress_group_id : String
  pub listen_port : ℤ

-- `pm.groupPorts[groupID]`, of which nil reads as the empty map.
abbrev pub ports_of : String → PortManager → List (ℤ × String)
ports_of group pm = elim (lookup group pm) [ none ↦ [] | some ports ↦ ports ]

unfoldable pub put_port : String → ℤ → String → PortManager → PortManager
put_port group port tunnel pm = insert group (insert port tunnel (ports_of group pm)) pm

unfoldable pub load_from : List Tunnel → PortManager → PortManager
load_from [] pm = pm
load_from (t ∷ rest) pm = load_from rest (put_port t.ingress_group_id t.listen_port t.id pm)

-- `loadOccupiedPorts`, on the enabled tunnels that the database gives.
unfoldable pub load_occupied_ports : List Tunnel → PortManager
load_occupied_ports tunnels = load_from tunnels []

-- `IsPortAvailableInGroup`
unfoldable pub is_port_available_in_group : String → ℤ → String → PortManager → Bool
is_port_available_in_group group port exclude pm = elim (lookup group pm) [
  | none ↦ true
  | some ports ↦ elim (lookup port ports) [
    | none ↦ true
    | some tunnel ↦ string_eq.beq tunnel exclude
  ]
]

-- `pm.groupPorts[groupID] = make(map[int]string)`, if it is nil.
abbrev pub with_group : String → PortManager → PortManager
with_group group pm = elim (lookup group pm) [ none ↦ insert group [] pm | some ports ↦ pm ]

abbrev pub occupy_free : String → ℤ → String → Option String → PortManager → PortManager × Bool
occupy_free group port tunnel none pm = (put_port group port tunnel pm, true)
occupy_free group port tunnel (some other) pm =
    if string_eq.beq other tunnel then (put_port group port tunnel pm, true) else (pm, false)

-- `OccupyPortInGroup`: the ports, and whether there was no error.
unfoldable pub occupy_port_in_group : String → ℤ → String → PortManager → PortManager × Bool
occupy_port_in_group group port tunnel pm =
    let pm' = with_group group pm in
    occupy_free group port tunnel (lookup port (ports_of group pm')) pm'

-- `ReleasePortInGroup`
unfoldable pub release_port_in_group : String → ℤ → PortManager → PortManager
release_port_in_group group port pm = elim (lookup group pm) [
  | none ↦ pm
  | some ports ↦ elim (lookup port ports) [
    | none ↦ pm
    | some tunnel ↦ insert group (delete port ports) pm
  ]
]

copied : List (ℤ × String) → List (ℤ × String) → List (ℤ × String)
copied [] out = out
copied ((port, tunnel) ∷ rest) out = copied rest (insert port tunnel out)

-- `GetOccupiedPortsInGroup`: a copy of the group's map.
unfoldable pub get_occupied_ports_in_group : String → PortManager → List (ℤ × String)
unfolding copied
get_occupied_ports_in_group group pm = elim (lookup group pm) [
  | none ↦ []
  | some ports ↦ copied ports []
]

pub data PortError : Type 0 where
  out_of_range reserved : PortError

-- `ValidatePort`
unfoldable pub validate_port : ℤ → Option PortError
validate_port port =
    if ltb_ℤ port (pos 1) || ltb_ℤ (pos 65535) port
    then some out_of_range
    else if ltb_ℤ port (pos 1024)
    then some reserved
    else none
