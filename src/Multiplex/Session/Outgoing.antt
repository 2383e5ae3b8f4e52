-- ===== src/Multiplex/Session/Outgoing.antt =====
-- session.go: `OpenStreamWithPriority`.
use gki_pass.Base.{
  Bool-cases, Option, arith, dec_lt, false, inl, inr, length, none, not, refl, some, subst, sym,
  true, ℕ, ◌<◌, ◌≡◌, ◌≤◌, ◌⊎◌,
}
use gki_pass.Base.Maps.{beq_refl, delete, lookup, lookup-delete, lookup-insert, nat_eq, string_eq}
use gki_pass.Base.Int.{int_eq}
use gki_pass.Multiplex.Frame.{new_stream_open_frame}
use gki_pass.Multiplex.Link.{Link, SendError, write_frame}
use gki_pass.Multiplex.Stream.{Stream, force_close, new_stream}
use gki_pass.Multiplex.Session.{Session, generate_stream_id, is_valid_stream_id}
use gki_pass.Multiplex.Session.Handlers.{
  Handled, count_64, error, not_sent, ok, open_sent, open_stream_with_priority, opened_stream,
  register, remove_stream, too_many_streams,
}
use gki_pass.Multiplex.Session.Ids.{IsCounter, generate_stream_id-side}
use gki_pass.Multiplex.Session.Books.{AllSound-delete, IsSession, length-delete_le}
use gki_pass.Multiplex.Session.Incoming.{opened-IsStream, register-IsSession}

-- The session when the id is taken and the stream is registered.
abbrev pub registered : ℕ → ℕ → ℕ → Session → Session
registered id priority now s =
    register id (opened_stream id priority now s) (record s { next_stream_id = id })

registered-IsSession :
    (id priority now : ℕ) (s : Session)
    → IsSession s
    → length s.streams < s.config.max_concurrent_streams
    → IsSession (registered id priority now s)
registered-IsSession id priority now s v room =
    register-IsSession id (opened_stream id priority now s) (record s { next_stream_id = id })
      (record { sound = v.sound; bounded = v.bounded; window_small = v.window_small })
      (opened-IsStream id priority now s v.window_small) room

-- The id and the session of a stream that was opened.
abbrev pub Opened : ℕ → ℕ → Session → ℕ → Session → Type 0
Opened priority now s id s' =
    (is_valid_stream_id (not s.is_client) id ≡ true)
    × (lookup id s'.streams ≡ some (opened_stream id priority now s))
    × IsSession s'
    × IsCounter s'

-- An open session with room takes a fresh id.
opens :
    (priority now : ℕ) (s : Session) (id : ℕ)
    → s.link.closed ≡ false
    → length s.streams < s.config.max_concurrent_streams
    → generate_stream_id s ≡ (some id, id)
    → open_stream_with_priority priority now s
      ≡ open_sent id
          (registered id priority now s)
          (write_frame (new_stream_open_frame id priority) s.link)
unfolding open_stream_with_priority
opens priority now s id o room e = simp (o, e) (ground arith)

removed :
    (id : ℕ) (t : Stream) (s : Session)
    → lookup id s.streams ≡ some t
    → t.close_notify ≡ false
    → remove_stream id s
      ≡ some
          (record s { streams = delete id s.streams; streams_closed = count_64 s.streams_closed })
unfolding remove_stream force_close
removed id t s e o = ground (arith, e)

opened-open :
    (id priority now : ℕ) (s : Session) → (opened_stream id priority now s).close_notify ≡ false
unfolding new_stream
opened-open id priority now s = refl

open_sent-failed :
    (id : ℕ) (s s' : Session) (l : Link) (e : SendError)
    → remove_stream id (record s { link = l }) ≡ some s'
    → open_sent id s (l, some e) ≡ (error (not_sent e) s', none)
open_sent-failed id s s' l e r = ground (arith, r)

-- How opening a stream may end: refused with nothing changed; opened, under an id that the peer
-- takes as this side's, with its frame sent; or failed in the send, with the stream removed again.
abbrev pub OpenEnd : ℕ → ℕ → Session → Handled × Option ℕ → Type 0
OpenEnd priority now s (ok s', some id) =
    (s.link.closed ≡ false)
    × (length s.streams < s.config.max_concurrent_streams)
    × (write_frame (new_stream_open_frame id priority) s.link ≡ (s'.link, none))
    × Opened priority now s id s'
OpenEnd priority now s (error e s', none) =
    ((s' ≡ s) × ((s.link.closed ≡ true) ⊎ (s.config.max_concurrent_streams ≤ length s.streams)))
    ⊎ ((s.link.closed ≡ false)
        × (length s.streams < s.config.max_concurrent_streams)
        × ((x : SendError) × (write_frame (new_stream_open_frame s'.next_stream_id priority) s.link
              ≡ (s'.link, some x)))
        × IsSession s'
        × IsCounter s'
        × (s'.streams_created ≡ s.streams_created)
        × (lookup s'.next_stream_id s'.streams ≡ none))
OpenEnd priority now s _ = ⊥

sent-OpenEnd :
    (id priority now : ℕ) (s : Session) (r : Link × Option SendError)
    → s.link.closed ≡ false
    → length s.streams < s.config.max_concurrent_streams
    → write_frame (new_stream_open_frame id priority) s.link ≡ r
    → IsSession (registered id priority now s)
    → IsCounter (record s { next_stream_id = id })
    → is_valid_stream_id (not s.is_client) id ≡ true
    → OpenEnd priority now s (open_sent id (registered id priority now s) r)
sent-OpenEnd id priority now s (l, none) o room written v c theirs = (
  o,
  room,
  written,
  (
    theirs,
    ground (arith, lookup-insert id id (opened_stream id priority now s) s.streams, beq_refl id),
    record { sound = v.sound; bounded = v.bounded; window_small = v.window_small },
    record { in_range = c.in_range; side = c.side },
  ),
)
sent-OpenEnd id priority now s (l, some e) o room written v c theirs =
    let s' = record (registered id priority now s) { link = l } in
    let t = opened_stream id priority now s in
    let there : lookup id s'.streams ≡ some t =
      ground (arith, lookup-insert id id t s.streams, beq_refl id) in
    let gone = removed id t s' there (opened-open id priority now s) in
    subst (OpenEnd priority now s)
      (sym (open_sent-failed id (registered id priority now s) _ l e gone))
      (inr (
        o,
        room,
        (e, written),
        record {
          sound = AllSound-delete id s'.streams v.sound;
          bounded = omega (arith, length-delete_le id s'.streams, v.bounded);
          window_small = v.window_small;
        },
        record { in_range = c.in_range; side = c.side },
        refl,
        ground (arith, lookup-delete id id s'.streams, beq_refl id),
      ))

-- Opening a stream on a session with its books and its counter in order. If the session is closed
-- or has as many streams as configured, and only then, it is refused and nothing changes. Otherwise
-- the open frame of an id is written: if that succeeds, a new stream is in the table under this id,
-- which the peer takes as this side's; if it fails, there is an error, no stream under the id, and
-- the count of streams created is as before. Books and counter stay in order, and there is no panic.
pub open-OpenEnd :
    (priority now : ℕ) (s : Session)
    → IsSession s
    → IsCounter s
    → OpenEnd priority now s (open_stream_with_priority priority now s)
unfolding open_stream_with_priority
open-OpenEnd priority now s v c = elim (Bool-cases s.link.closed) [
  | inl shut ↦ simp shut (inl (refl, inl refl))
  | inr o ↦ elim (dec_lt (length s.streams) s.config.max_concurrent_streams) [
    | no full ↦ refused o (omega arith)
    | yes room ↦
        let (id, e, c', theirs, _) = generate_stream_id-side s c in
        subst (OpenEnd priority now s) (sym (opens priority now s id o room e)) (
          sent-OpenEnd id priority now s (write_frame (new_stream_open_frame id priority) s.link) o
            room refl (registered-IsSession id priority now s v room) c' theirs)
  ]
]
  where
    refused :
        s.link.closed ≡ false
        → s.config.max_concurrent_streams ≤ length s.streams
        → OpenEnd priority now s (open_stream_with_priority priority now s)
    refused o full =
        let e : open_stream_with_priority priority now s ≡ (error too_many_streams s, none) =
          ground arith in
        subst (OpenEnd priority now s) (sym e) (inl (refl, inr full))
