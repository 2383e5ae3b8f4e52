-- ===== src/Plane/Tests.antt =====
-- The theorems about the control plane at concrete inputs.
use gki_pass.Base.{List, [], arith, false, length, refl, some, true, ◌<◌, ◌↔◌, ◌∷◌, ◌≡◌, ◌≤◌}
use gki_pass.Base.Maps.{delete, insert, lookup, nat_eq, string_eq}
use gki_pass.Base.Int.{int_eq, pos}
use gki_pass.Plane.Ports.{PortManager, Tunnel, occupy_port_in_group, release_port_in_group}
use gki_pass.Plane.Ports.Owners.{occupies, owner, releases, run_ports, run_ports-owner}
use gki_pass.Plane.Login.{cleanup, middleware, new_login_rate_limiter, valid}
use gki_pass.Plane.Login.Window.{LoginEvent, asks, recent, run_logins, sweeps}
use gki_pass.Plane.Login.Limits.{run_logins-limit}

abbrev table : PortManager
table = ("g1", (pos 8080, "t1") ∷ []) ∷ []

abbrev tunnels : List Tunnel
tunnels =
    record { id = "t1"; ingress_group_id = "g1"; listen_port = pos 8080 }
    ∷ record { id = "t2"; ingress_group_id = "g1"; listen_port = pos 8080 }
    ∷ []

-- The second tunnel is refused the port, and takes it after its release.
taken_then_free :
    ((occupy_port_in_group "g1" (pos 8080) "t2" table).1 ≡ false)
    × ((occupy_port_in_group "g1" (pos 8080) "t2" (release_port_in_group "g1" (pos 8080) table)).1
        ≡ true)
unfolding occupy_port_in_group release_port_in_group lookup insert delete
taken_then_free = (refl, refl)

run_ports-owner_example :
    owner "g1" (pos 8080) (
      run_ports
        (occupies "g1" (pos 8080) "t2"
          ∷ releases "g1" (pos 80)
          ∷ occupies "g2" (pos 8080) "t3"
          ∷ [])
        table)
    ≡ some "t1"
unfolding lookup
run_ports-owner_example =
    run_ports-owner "g1" (pos 8080) "t1"
      (occupies "g1" (pos 8080) "t2" ∷ releases "g1" (pos 80) ∷ occupies "g2" (pos 8080) "t3" ∷ [])
      table (refl, tt) refl

abbrev logins : List LoginEvent
logins = asks "10.0.0.1" 5 ∷ asks "10.0.0.2" 6 ∷ asks "10.0.0.1" 7 ∷ sweeps 8 ∷ []

-- Two requests go on within the window, and the third one is refused.
third_refused :
    (middleware "10.0.0.1" 9 (run_logins logins (new_login_rate_limiter 2 100) []).0).1 ≡ false
unfolding run_logins middleware cleanup new_login_rate_limiter valid lookup insert
third_refused = refl

run_logins-limit_example :
    let r = run_logins logins (new_login_rate_limiter 2 100) [] in
    (length (recent 100 "10.0.0.1" 9 r.1) ≤ 2)
    × (((middleware "10.0.0.1" 9 r.0).1 ≡ true) ↔ (length (recent 100 "10.0.0.1" 9 r.1) < 2))
run_logins-limit_example =
    run_logins-limit 2 100 logins "10.0.0.1" 9
      (omega arith, (omega arith, (omega arith, (omega arith, tt)))) (omega arith)
