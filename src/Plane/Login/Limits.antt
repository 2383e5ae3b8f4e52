-- ===== src/Plane/Login/Limits.antt =====
-- rate_limit.go: how many requests go on.
-- The decision of the limiter, in terms of the history.
use gki_pass.Base.{
  List, String, [], ap, arith, dec_lt, false, inl, inr, length, refl, subst, sym, true, ℕ, ◌++◌,
  ◌<◌, ◌↔◌, ◌∷◌, ◌≡◌, ◌≤◌, ◌⊎◌,
}
use gki_pass.Base.Maps.{insert, lookup, string_eq}
use gki_pass.Plane.Login.{LoginRateLimiter, cleanup, middleware, new_login_rate_limiter, valid}
use gki_pass.Plane.Login.Window.{
  LoginEvent, History, Ordered, asks, logged, recent, run_logins, sweeps, time,
}
use gki_pass.Plane.Login.Agreement.{
  Agrees, accepted-Agrees, kept-recent, refused-Agrees, sweep-Agrees,
}

middleware-cases :
    (limit w from now : ℕ) (ip : String) (rl : LoginRateLimiter) (log : History)
    → Agrees limit w from rl log
    → from ≤ now
    → ((limit ≤ length (recent w ip now log))
        × (middleware ip now rl
            ≡ (record rl { attempts = insert ip (recent w ip now log) rl.attempts }, false)))
      ⊎ ((length (recent w ip now log) < limit)
          × (middleware ip now rl ≡ (
            record rl { attempts = insert ip (recent w ip now log ++ now ∷ []) rl.attempts },
            true,
          )))
unfolding middleware
middleware-cases limit w from now ip rl log v h =
    let e = kept-recent limit w from now ip rl log v h in
    elim (dec_lt (length (recent w ip now log)) limit) [
      | yes p ↦ inr (p, rw e (ground (arith, v.same_limit)))
      | no p ↦ inl (omega arith, rw e (ground (arith, v.same_limit)))
    ]

asks-Agrees :
    (limit w from now : ℕ) (ip : String) (rl : LoginRateLimiter) (log : History)
    → Agrees limit w from rl log
    → from ≤ now
    → let r = logged ip now log (middleware ip now rl) in Agrees limit w now r.0 r.1
asks-Agrees limit w from now ip rl log v h =
    elim (middleware-cases limit w from now ip rl log v h) [
      | inl (_, e) ↦
          subst (λ m. let r = logged ip now log m in Agrees limit w now r.0 r.1) (sym e)
            (refused-Agrees limit w from now ip rl log v h)
      | inr (room, e) ↦
          subst (λ m. let r = logged ip now log m in Agrees limit w now r.0 r.1) (sym e)
            (accepted-Agrees limit w from now ip rl log v h room)
    ]

-- The time of the last event.
abbrev pub last_time : ℕ → List LoginEvent → ℕ
last_time from [] = from
last_time from (e ∷ rest) = last_time (time e) rest

run_logins-Agrees :
    (limit w from : ℕ) (events : List LoginEvent) (rl : LoginRateLimiter) (log : History)
    → Ordered from events
    → Agrees limit w from rl log
    → let r = run_logins events rl log in Agrees limit w (last_time from events) r.0 r.1
unfolding run_logins
run_logins-Agrees limit w from [] rl log o v = v
run_logins-Agrees limit w from (asks ip now ∷ rest) rl log o v =
    let r = logged ip now log (middleware ip now rl) in
    run_logins-Agrees limit w now rest r.0 r.1 o.1 (asks-Agrees limit w from now ip rl log v o.0)
run_logins-Agrees limit w from (sweeps now ∷ rest) rl log o v =
    run_logins-Agrees limit w now rest (cleanup now rl) log o.1
      (sweep-Agrees limit w from now rl log v o.0)

new-Agrees : (limit w : ℕ) → Agrees limit w 0 (new_login_rate_limiter limit w) []
unfolding new_login_rate_limiter lookup valid recent
new-Agrees limit w = record {
  same_window = refl;
  same_limit = refl;
  unique = tt;
  stored = λ ip now h. refl;
  limited = λ ip now h. omega arith;
}

-- After any requests and cleanups in the order of their times, a request of an address goes on
-- exactly if fewer requests of this address than the limit went on within the window before it; and
-- never more than the limit went on within a window.
pub run_logins-limit :
    (limit w : ℕ) (events : List LoginEvent) (ip : String) (now : ℕ)
    → Ordered 0 events
    → last_time 0 events ≤ now
    → let r = run_logins events (new_login_rate_limiter limit w) [] in
      (length (recent w ip now r.1) ≤ limit)
      × (((middleware ip now r.0).1 ≡ true) ↔ (length (recent w ip now r.1) < limit))
run_logins-limit limit w events ip now o h =
    let r = run_logins events (new_login_rate_limiter limit w) [] in
    let v =
      run_logins-Agrees limit w 0 events (new_login_rate_limiter limit w) [] o
        (new-Agrees limit w) in
    (
      v.limited ip now h,
      elim (middleware-cases limit w (last_time 0 events) now ip r.0 r.1 v h) [
        | inl (full, e) ↦ ((λ k. absurd (ground (arith, e))), λ k. absurd (omega arith))
        | inr (room, e) ↦ ((λ k. room), λ k. ap (λ m. m.1) e)
      ],
    )
