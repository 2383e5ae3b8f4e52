-- ===== src/Multiplex/Manager/Tests.antt =====
-- manager.go: the theorems at concrete inputs.
use gki_pass.Base.{String, [], arith, refl, some, true, ◌∷◌, ◌≡◌}
use gki_pass.Base.Maps.{delete, lookup, nat_eq, string_eq}
use gki_pass.Multiplex.Frame.Wire.{Writer}
use gki_pass.Multiplex.Session.{SessionConfig, new_session}
use gki_pass.Multiplex.Manager.{
  Manager, close_session, create_session, get_or_create_session, monitor_session, new_manager,
  one_less,
}
use gki_pass.Multiplex.Manager.Sessions.{Got, close-monitor, get_or_create-Got}

abbrev config : SessionConfig
config = record {
  initial_window_size = 65536;
  max_concurrent_streams = 2;
  stream_idle_timeout = 300;
}

abbrev socket : Writer
socket = record { out = []; budget = 1000 }

abbrev empty : Manager
empty = new_manager config

-- A new session under the key of an old one that was closed is removed by the monitor of the old.
abbrev reopened : Manager
reopened = record empty {
  sessions = ("a-b-true", 1) ∷ [];
  store =
      (0, record (new_session config true socket) { cancelled = true })
      ∷ (1, new_session config true socket)
      ∷ [];
  next = 2;
}

old_monitor : (monitor_session "a-b-true" 0 reopened).sessions ≡ []
unfolding monitor_session lookup delete
old_monitor = refl

get_or_create-Got_example :
    Got "a-b-true" reopened (get_or_create_session "a-b-true" true socket reopened)
get_or_create-Got_example = get_or_create-Got "a-b-true" true socket reopened

close-monitor_example :
    let (m1, p) = create_session "a-b-true" true socket empty in
    (m2 : Manager) × (close_session "a-b-true" m1 ≡ some m2)
    × ((monitor_session "a-b-true" p m2).active_sessions ≡ one_less empty.active_sessions)
    × ((k : String) → lookup k (monitor_session "a-b-true" p m2).sessions ≡ lookup k empty.sessions)
unfolding new_manager lookup
close-monitor_example = close-monitor "a-b-true" true socket empty refl (omega arith)
