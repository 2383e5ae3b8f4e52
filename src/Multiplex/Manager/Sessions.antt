-- ===== src/Multiplex/Manager/Sessions.antt =====
-- manager.go: what becomes of a session and of the count of active ones.
use gki_pass.Base.{
  Bool, Option-cases, String, ap, arith, false, inl, inr, none, refl, some, subst, sym, ℕ, ◌<◌, ◌^◌,
  ◌∙◌, ◌≡◌, ◌⊎◌,
}
use gki_pass.Base.Maps.{
  beq_refl, delete, insert, lookup, lookup-delete, lookup-insert, nat_eq, string_eq,
}
use gki_pass.Multiplex.Frame.Wire.{Writer}
use gki_pass.Multiplex.Link.{write_frame}
use gki_pass.Multiplex.Session.{
  Session, SessionConfig, close_streams, close_with_error, closing, emptied, new_session,
}
use gki_pass.Multiplex.Manager.{
  Manager, close_at, close_session, create_session, created, get_or_create_session, get_session,
  is_closed, monitor_session, one_less,
}

create-new :
    (key : String) (is_client : Bool) (writer : Writer) (m : Manager)
    → lookup key m.sessions ≡ none
    → create_session key is_client writer m ≡ (created key is_client writer m, m.next)
unfolding create_session
create-new key is_client writer m e = ground (arith, e)

create-known :
    (key : String) (is_client : Bool) (writer : Writer) (m : Manager) (p : ℕ)
    → lookup key m.sessions ≡ some p
    → create_session key is_client writer m ≡ (m, p)
unfolding create_session
create-known key is_client writer m p e = ground (arith, e)

get_or_create-new :
    (key : String) (is_client : Bool) (writer : Writer) (m : Manager)
    → lookup key m.sessions ≡ none
    → get_or_create_session key is_client writer m ≡ (created key is_client writer m, m.next)
unfolding get_or_create_session get_session
get_or_create-new key is_client writer m e = ground (arith, e, create-new key is_client writer m e)

get_or_create-known :
    (key : String) (is_client : Bool) (writer : Writer) (m : Manager) (p : ℕ)
    → lookup key m.sessions ≡ some p
    → get_or_create_session key is_client writer m ≡ (m, p)
unfolding get_or_create_session get_session
get_or_create-known key is_client writer m p e =
    ground (arith, e, create-known key is_client writer m p e)

created-session :
    (key : String) (is_client : Bool) (writer : Writer) (m : Manager)
    → lookup key (created key is_client writer m).sessions ≡ some m.next
created-session key is_client writer m =
    ground (arith, lookup-insert key key m.next m.sessions, beq_refl key)

created-store :
    (key : String) (is_client : Bool) (writer : Writer) (m : Manager)
    → lookup m.next (created key is_client writer m).store
      ≡ some (new_session m.config is_client writer)
created-store key is_client writer m = ground (
  arith,
  lookup-insert m.next m.next (new_session m.config is_client writer) m.store,
  beq_refl m.next,
)

created-open :
    (key : String) (is_client : Bool) (writer : Writer) (m : Manager)
    → is_closed m.next (created key is_client writer m) ≡ false
unfolding is_closed new_session
created-open key is_client writer m = ground (arith, created-store key is_client writer m)

-- What a caller gets for a key: a new session, which is open, or the session that the key has.
abbrev pub Got : String → Manager → Manager × ℕ → Type 0
Got key m (m', p) =
    (lookup key m'.sessions ≡ some p)
    × (((lookup key m.sessions ≡ none) × (p ≡ m.next) × (is_closed p m' ≡ false))
        ⊎ ((lookup key m.sessions ≡ some p) × (m' ≡ m)))

-- Getting or creating a session for a key gives the session that the key then has. If the key has
-- none before, it is a new session, which is open; if it has one, it is that session, even if it
-- was closed, and nothing changes.
pub get_or_create-Got :
    (key : String) (is_client : Bool) (writer : Writer) (m : Manager)
    → Got key m (get_or_create_session key is_client writer m)
get_or_create-Got key is_client writer m = elim (Option-cases (lookup key m.sessions)) [
  | inl e ↦
      subst (Got key m) (sym (get_or_create-new key is_client writer m e))
        (created-session key is_client writer m, inl (e, refl, created-open key is_client writer m))
  | inr (p, e) ↦
      subst (Got key m) (sym (get_or_create-known key is_client writer m p e)) (e, inr (e, refl))
]

-- A new session when it is closed.
closed_new : SessionConfig → Bool → Writer → Session
closed_new config is_client writer = emptied (closing 0 (new_session config is_client writer))

close-new :
    (config : SessionConfig) (is_client : Bool) (writer : Writer)
    → close_with_error 0 (new_session config is_client writer)
      ≡ some (closed_new config is_client writer)
unfolding close_with_error new_session close_streams write_frame closed_new
close-new config is_client writer = refl

-- The manager after a new session is created and closed.
created_closed : String → Bool → Writer → Manager → Manager
created_closed key is_client writer m =
    let m1 = created key is_client writer m in
    record m1 {
      sessions = delete key m1.sessions;
      active_sessions = one_less m1.active_sessions;
      store = insert m.next (closed_new m.config is_client writer) m1.store;
    }

close-created :
    (key : String) (is_client : Bool) (writer : Writer) (m : Manager)
    → close_session key (created key is_client writer m)
      ≡ some (created_closed key is_client writer m)
unfolding close_session close_at created_closed
close-created key is_client writer m = ground (
  arith,
  created-session key is_client writer m,
  created-store key is_client writer m,
  close-new m.config is_client writer,
)

monitor-closed :
    (key : String) (is_client : Bool) (writer : Writer) (m : Manager)
    → let m2 = created_closed key is_client writer m in
      monitor_session key m.next m2 ≡ record m2 {
        sessions = delete key m2.sessions;
        active_sessions = one_less m2.active_sessions;
      }
unfolding monitor_session created_closed closed_new
monitor-closed key is_client writer m = ground (
  arith,
  lookup-insert m.next m.next (closed_new m.config is_client writer)
      (created key is_client writer m).store,
  beq_refl m.next,
)

-- The count and the sessions when the monitor is done.
abbrev CountedTwice : String → Manager → Manager × ℕ → Type 0
CountedTwice key m (m1, p) =
    (m2 : Manager) × (close_session key m1 ≡ some m2)
    × ((monitor_session key p m2).active_sessions ≡ one_less m.active_sessions)
    × ((k : String) → lookup k (monitor_session key p m2).sessions ≡ lookup k m.sessions)

created-CountedTwice :
    (key : String) (is_client : Bool) (writer : Writer) (m : Manager)
    → lookup key m.sessions ≡ none
    → m.active_sessions < 2 ^ 64
    → CountedTwice key m (created key is_client writer m, m.next)
unfolding created_closed
created-CountedTwice key is_client writer m e h =
    let m2 = created_closed key is_client writer m in
    let gone = monitor-closed key is_client writer m in
    (
      m2,
      close-created key is_client writer m,
      ap (λ x. x.active_sessions) gone ∙ omega (arith, h),
      λ k.
          ap (λ x. lookup k x.sessions) gone
          ∙ ground (
            arith,
            e,
            lookup-delete key k m2.sessions,
            lookup-delete key k (insert key m.next m.sessions),
            lookup-insert key k m.next m.sessions,
            string_eq.beq_iff key k,
          ),
    )

-- A session that is created under a new key, closed, and then removed by its monitor: no session of
-- the key is left and all others are as before, but the count of active sessions is one lower than
-- at the start, since both the close and the monitor take one off.
pub close-monitor :
    (key : String) (is_client : Bool) (writer : Writer) (m : Manager)
    → lookup key m.sessions ≡ none
    → m.active_sessions < 2 ^ 64
    → let (m1, p) = create_session key is_client writer m in
      (m2 : Manager) × (close_session key m1 ≡ some m2)
      × ((monitor_session key p m2).active_sessions ≡ one_less m.active_sessions)
      × ((k : String) → lookup k (monitor_session key p m2).sessions ≡ lookup k m.sessions)
close-monitor key is_client writer m e h =
    subst (CountedTwice key m) (sym (create-new key is_client writer m e))
      (created-CountedTwice key is_client writer m e h)
