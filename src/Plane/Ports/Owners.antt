-- ===== src/Plane/Ports/Owners.antt =====
-- port_manager.go: who owns which port.
-- The tunnel that holds a port of a group.
use gki_pass.Base.{
  Bool, Bool-cases, List, Option, Option-cases, String, [], ap, ap₂, arith, false, if◌then◌else◌,
  inl, inr, none, refl, some, true, ℕ, ◌&&◌, ◌<◌, ◌↔◌, ◌∙◌, ◌∷◌, ◌≡◌, ◌≤◌,
}
use gki_pass.Base.Maps.{delete, insert, lookup, lookup-delete, lookup-insert, string_eq}
use gki_pass.Base.Int.{eq_ℤ, eq_ℤ_iff, int_eq, negsuc, pos, ℤ}
use gki_pass.Plane.Ports.{
  PortManager, Tunnel, is_port_available_in_group, load_from, load_occupied_ports, occupy_free,
  occupy_port_in_group, ports_of, put_port, release_port_in_group, reserved, validate_port,
  with_group,
}

abbrev pub owner : String → ℤ → PortManager → Option String
owner group port pm = lookup port (ports_of group pm)

-- The test for one place of the table.
abbrev pub same_place : String → ℤ → String → ℤ → Bool
same_place group port g p = string_eq.beq group g && eq_ℤ port p

put-owner :
    (group : String) (port : ℤ) (tunnel g : String) (p : ℤ) (pm : PortManager)
    → owner g p (put_port group port tunnel pm)
      ≡ (if same_place group port g p then some tunnel else owner g p pm)
unfolding put_port lookup
put-owner group port tunnel g p pm = ground (
  arith,
  lookup-insert group g (insert port tunnel (ports_of group pm)) pm,
  lookup-insert port p tunnel (ports_of group pm),
  string_eq.beq_iff group g,
)

with_group-owner :
    (group g : String) (p : ℤ) (pm : PortManager) → owner g p (with_group group pm) ≡ owner g p pm
unfolding lookup
with_group-owner group g p pm =
    ground (arith, lookup-insert group g [] pm, string_eq.beq_iff group g)

occupied :
    (group : String) (port : ℤ) (tunnel : String) (pm : PortManager)
    → occupy_port_in_group group port tunnel pm
      ≡ occupy_free group port tunnel (owner group port pm) (with_group group pm)
unfolding occupy_port_in_group
occupied group port tunnel pm =
    ap (λ x. occupy_free group port tunnel x (with_group group pm))
      (with_group-owner group group port pm)

available :
    (group : String) (port : ℤ) (tunnel : String) (pm : PortManager)
    → is_port_available_in_group group port tunnel pm
      ≡ elim (owner group port pm) [ none ↦ true | some other ↦ string_eq.beq other tunnel ]
unfolding is_port_available_in_group lookup
available group port tunnel pm = ground arith

-- Occupying a port succeeds exactly if no other tunnel of the group holds it, which is just what
-- the test for a free port says, and then the tunnel holds it; if it fails, another tunnel holds it.
-- All other owners stay as they are.
pub occupy-owner :
    (group : String) (port : ℤ) (tunnel : String) (pm : PortManager)
    → let (pm', fine) = occupy_port_in_group group port tunnel pm in
      (fine ≡ is_port_available_in_group group port tunnel pm)
      × ((fine ≡ true) ↔ ((other : String) → owner group port pm ≡ some other → other ≡ tunnel))
      × ((g : String) (p : ℤ)
          → owner g p pm'
            ≡ (if fine && same_place group port g p then some tunnel else owner g p pm))
occupy-owner group port tunnel pm = elim (Option-cases (owner group port pm)) [
  | inl e ↦
      let o =
        occupied group port tunnel pm
        ∙ ap (λ x. occupy_free group port tunnel x (with_group group pm)) e in
      (
        ground (arith, o, available group port tunnel pm, e),
        ((λ _ other h. absurd (ground (arith, e, h))), λ _. ap (λ r. r.1) o),
        λ g p. ground (
          arith,
          o,
          put-owner group port tunnel g p (with_group group pm),
          with_group-owner group g p pm,
        ),
      )
  | inr (other, e) ↦
      let o =
        occupied group port tunnel pm
        ∙ ap (λ x. occupy_free group port tunnel x (with_group group pm)) e in
      (
        ground (arith, o, available group port tunnel pm, e),
        (
          (λ h t k. ground (arith, o, e, k, string_eq.beq_iff other tunnel)),
          λ h. ground (arith, o, h other e, string_eq.beq_iff other tunnel),
        ),
        λ g p. ground (
          arith,
          o,
          put-owner group port tunnel g p (with_group group pm),
          with_group-owner group g p pm,
        ),
      )
]

-- Releasing a port takes its owner, and no other owner changes.
pub release-owner :
    (group : String) (port : ℤ) (g : String) (p : ℤ) (pm : PortManager)
    → owner g p (release_port_in_group group port pm)
      ≡ (if same_place group port g p then none else owner g p pm)
unfolding release_port_in_group lookup
release-owner group port g p pm = ground (
  arith,
  lookup-insert group g (delete port (ports_of group pm)) pm,
  lookup-delete port p (ports_of group pm),
  string_eq.beq_iff group g,
  eq_ℤ_iff port p,
)

-- The last tunnel of the list at a place.
abbrev pub last_at : String → ℤ → List Tunnel → Option String → Option String
last_at g p [] found = found
last_at g p (t ∷ rest) found =
    last_at g p rest (if same_place t.ingress_group_id t.listen_port g p then some t.id else found)

load_from-owner :
    (g : String) (p : ℤ) (tunnels : List Tunnel) (pm : PortManager)
    → owner g p (load_from tunnels pm) ≡ last_at g p tunnels (owner g p pm)
unfolding load_from
load_from-owner g p [] pm = refl
load_from-owner g p (t ∷ rest) pm =
    load_from-owner g p rest (put_port t.ingress_group_id t.listen_port t.id pm)
    ∙ ap (last_at g p rest) (put-owner t.ingress_group_id t.listen_port t.id g p pm)

-- After loading, a port belongs to the last tunnel of the list with its group and port.
pub load-owner :
    (g : String) (p : ℤ) (tunnels : List Tunnel)
    → owner g p (load_occupied_ports tunnels) ≡ last_at g p tunnels none
unfolding load_occupied_ports lookup
load-owner g p tunnels = load_from-owner g p tunnels []

-- What happens to the table.
pub data PortEvent : Type 0 where
  occupies : String → ℤ → String → PortEvent
  releases : String → ℤ → PortEvent

unfoldable pub run_ports : List PortEvent → PortManager → PortManager
run_ports [] pm = pm
run_ports (occupies group port tunnel ∷ rest) pm =
    run_ports rest (occupy_port_in_group group port tunnel pm).0
run_ports (releases group port ∷ rest) pm = run_ports rest (release_port_in_group group port pm)

-- No event of the list releases the port.
abbrev pub Held : String → ℤ → List PortEvent → Type 0
Held g p [] = Unit {0}
Held g p (occupies group port tunnel ∷ rest) = Held g p rest
Held g p (releases group port ∷ rest) = (same_place group port g p ≡ false) × Held g p rest

-- A tunnel that holds a port keeps it over any events, attempts of other tunnels included, until
-- the port is released.
pub run_ports-owner :
    (g : String) (p : ℤ) (tunnel : String) (events : List PortEvent) (pm : PortManager)
    → Held g p events
    → owner g p pm ≡ some tunnel
    → owner g p (run_ports events pm) ≡ some tunnel
unfolding run_ports
run_ports-owner g p tunnel [] pm h e = e
run_ports-owner g p tunnel (releases group port ∷ rest) pm h e =
    run_ports-owner g p tunnel rest (release_port_in_group group port pm) h.1
      (ground (arith, release-owner group port g p pm, h.0))
run_ports-owner g p tunnel (occupies group port t ∷ rest) pm h e =
    let (_, free, after) = occupy-owner group port t pm in
    run_ports-owner g p tunnel rest (occupy_port_in_group group port t pm).0 h
      (elim (Bool-cases ((occupy_port_in_group group port t pm).1 && same_place group port g p)) [
        | inr other ↦ ground (arith, after g p, other, e)
        | inl same ↦
            let eg : group ≡ g = ground (arith, same, string_eq.beq_iff group g) in
            let ep : port ≡ p = ground (arith, same, eq_ℤ_iff port p) in
            let fine : (occupy_port_in_group group port t pm).1 ≡ true = ground (arith, same) in
            let et : tunnel ≡ t = free.0 fine tunnel (ap₂ (λ x y. owner x y pm) eg ep ∙ e) in
            ground (arith, after g p, same, et)
      ])

-- A port is valid exactly if it is from 1024 to 65535; a port below is reserved or out of range.
pub validate_port-range :
    (port : ℤ)
    → ((validate_port port ≡ none) ↔ ((n : ℕ) × (port ≡ pos n) × (1024 ≤ n) × (n ≤ 65535)))
      × ((validate_port port ≡ some reserved) ↔ ((n : ℕ) × (port ≡ pos n) × (1 ≤ n) × (n < 1024)))
unfolding validate_port
validate_port-range (pos n) = (
  ((λ h. (n, refl, ground arith, ground arith)), λ q. ground arith),
  ((λ h. (n, refl, ground arith, ground arith)), λ q. ground arith),
)
validate_port-range (negsuc n) = (
  ((λ h. absurd (ground arith)), λ q. absurd (ground arith)),
  ((λ h. absurd (ground arith)), λ q. absurd (ground arith)),
)
