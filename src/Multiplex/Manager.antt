-- ===== src/Multiplex/Manager.antt =====
-- client/internal/multiplex/manager.go: the sessions by key. Sessions are shared through pointers,
-- so they stand in a store, by number. `Session.Start` never fails. Each started session has a
-- monitor, a goroutine that waits until the session is cancelled; one such monitor may take its step
-- at any time after that. The key, made of the two addresses and the side, is an argument.
pub mod Sessions
pub mod Tests
use gki_pass.Base.{
  Bool, List, Option, String, [], false, if◌then◌else◌, none, some, ℕ, ◌%◌, ◌+◌, ◌-◌, ◌^◌, ◌∷◌,
}
use gki_pass.Base.Maps.{delete, insert, lookup, nat_eq, string_eq}
use gki_pass.Multiplex.Frame.Wire.{Writer}
use gki_pass.Multiplex.Session.{Session, SessionConfig, close_with_error, new_session}
use mathlib.Core.Option

pub record Manager : Type 0 where
  pub config : SessionConfig
  pub sessions : List (String × ℕ)
  pub store : List (ℕ × Session)
  pub next : ℕ
  pub total_sessions : ℕ
  pub active_sessions : ℕ

-- `NewManager`
unfoldable pub new_manager : SessionConfig → Manager
new_manager config = record {
  config = config;
  sessions = [];
  store = [];
  next = 0;
  total_sessions = 0;
  active_sessions = 0;
}

-- `m.stats.activeSessions--`
abbrev pub one_less : ℕ → ℕ
one_less n = (n + 2 ^ 64 - 1) % 2 ^ 64

-- What `CreateSession` leaves for a key that is not there.
abbrev pub created : String → Bool → Writer → Manager → Manager
created key is_client writer m = record m {
  sessions = insert key m.next m.sessions;
  store = insert m.next (new_session m.config is_client writer) m.store;
  next = m.next + 1;
  total_sessions = (m.total_sessions + 1) % 2 ^ 64;
  active_sessions = (m.active_sessions + 1) % 2 ^ 64;
}

-- `CreateSession`: the manager, and the session.
unfoldable pub create_session : String → Bool → Writer → Manager → Manager × ℕ
create_session key is_client writer m = elim (lookup key m.sessions) [
  | some p ↦ (m, p)
  | none ↦ (created key is_client writer m, m.next)
]

-- `GetSession`
unfoldable pub get_session : String → Manager → Option ℕ
get_session key m = lookup key m.sessions

-- `session.IsClosed()`
unfoldable pub is_closed : ℕ → Manager → Bool
is_closed p m = elim (lookup p m.store) [ none ↦ false | some s ↦ s.link.closed ]

-- `GetOrCreateSession`
unfoldable pub get_or_create_session : String → Bool → Writer → Manager → Manager × ℕ
get_or_create_session key is_client writer m =
    let again = create_session key is_client writer m in
    elim (get_session key m) [ none ↦ again | some p ↦ if is_closed p m then again else (m, p) ]

-- `session.Close()`; `none` is a panic.
unfoldable pub close_at : ℕ → Manager → Option Manager
close_at p m = elim (lookup p m.store) [
  | none ↦ some m
  | some s ↦ Option.map (λ s'. record m { store = insert p s' m.store }) (close_with_error 0 s)
]

-- `CloseSession`
unfoldable pub close_session : String → Manager → Option Manager
close_session key m = elim (lookup key m.sessions) [
  | none ↦ some m
  | some p ↦
      close_at p (record m {
        sessions = delete key m.sessions;
        active_sessions = one_less m.active_sessions;
      })
]

unfoldable pub close_each : List (String × ℕ) → Manager → Option Manager
close_each [] m = some m
close_each ((key, p) ∷ rest) m = elim (close_at p m) [ none ↦ none | some m' ↦ close_each rest m' ]

-- `CloseAllSessions`
unfoldable pub close_all_sessions : Manager → Option Manager
close_all_sessions m = close_each m.sessions (record m { sessions = []; active_sessions = 0 })

-- The step of `monitorSession` for the session `p` under the key, once the session is cancelled.
unfoldable pub monitor_session : String → ℕ → Manager → Manager
monitor_session key p m = elim (lookup p m.store) [
  | none ↦ m
  | some s ↦
      if s.cancelled
      then record m {
        sessions = delete key m.sessions;
        active_sessions = one_less m.active_sessions;
      }
      else m
]
