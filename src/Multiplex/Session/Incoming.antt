-- ===== src/Multiplex/Session/Incoming.antt =====
-- session.go: `handleFrame` over all frame types.
-- Why a frame may panic: a reset of a stream whose read side is closed, or a GO_AWAY on an open
-- session with such a stream.
use gki_pass.Base.{
  Bool-cases, List, Option, Option-cases, [], ap, arith, false, inl, inr, length, none, some, subst,
  sym, true, ℕ, ◌<◌, ◌^◌, ◌≡◌, ◌⊎◌,
}
use gki_pass.Base.Maps.{lookup, nat_eq}
use gki_pass.Multiplex.Frame.{
  Frame, frame_type_go_away, frame_type_stream_reset, get_error_code, get_priority, is_ack,
  new_pong_frame, new_stream_reset_frame, payload_len, validate,
}
use gki_pass.Multiplex.Frame.Valid.{validate-getters}
use gki_pass.Multiplex.Link.{Link, SendError, write_frame}
use gki_pass.Multiplex.Stream.{Reply, Stream, done, failed, handle_stream_frame}
use gki_pass.Multiplex.Stream.Receive.{IsStream, new-IsStream}
use gki_pass.Multiplex.Stream.Frames.{Fine, handle_stream_frame-Fine}
use gki_pass.Multiplex.Session.{Session, close_with_error}
use gki_pass.Multiplex.Session.Handlers.{
  Handled, blocks, count_64, dispatch_frame, error, error_code_protocol_error,
  error_code_refused_stream, from_stream, handle_frame, handle_frame_of_stream,
  handle_go_away_frame, handle_ping_frame, handle_pong_frame, handle_stream_open_frame, offer, ok,
  opened_stream, push_pong, register, sent,
}
use gki_pass.Multiplex.Session.Close.{AllOpen, close_with_error-again, close_with_error-silent}
use gki_pass.Multiplex.Session.Books.{
  AllSound, AllSound-insert, AllSound-lookup, IsSession, length-insert_known, length-insert_le,
}

abbrev pub MayPanic : Frame → Session → Type 0
MayPanic f s =
    ((f.type ≡ frame_type_stream_reset)
      × ((t : Stream) × (lookup f.stream_id s.streams ≡ some t) × (t.read_closed ≡ true)))
    ⊎ ((f.type ≡ frame_type_go_away) × (s.link.closed ≡ false) × (¬ AllOpen s.streams))

-- What a handler leaves.
abbrev pub Kept : Frame → Session → Handled → Type 0
Kept f s (ok s') = IsSession s'
Kept f s (error e s') = IsSession s'
Kept f s (blocks s') = IsSession s'
Kept f s Handled.panic = MayPanic f s

known-IsSession :
    (id : ℕ) (t t' : Stream) (s : Session)
    → IsSession s
    → lookup id s.streams ≡ some t
    → IsStream t'
    → IsSession (register id t' s)
known-IsSession id t t' s v there w = record {
  sound = AllSound-insert id t' s.streams w v.sound;
  bounded = omega (arith, length-insert_known id t' t s.streams there, v.bounded);
  window_small = v.window_small;
}

sent-Kept :
    (f : Frame) (s : Session) (r : Link × Option SendError) → IsSession s → Kept f s (sent s r)
sent-Kept f s (l, none) v = record {
  sound = v.sound;
  bounded = v.bounded;
  window_small = v.window_small;
}
sent-Kept f s (l, some e) v = record {
  sound = v.sound;
  bounded = v.bounded;
  window_small = v.window_small;
}

push_pong-IsSession : (p : Option (List ℕ)) (s : Session) → IsSession s → IsSession (push_pong p s)
push_pong-IsSession p s v = ground arith

from_stream-Kept :
    (f : Frame) (s : Session) (t : Stream) (r : Reply Stream)
    → IsSession s
    → lookup f.stream_id s.streams ≡ some t
    → Fine r
    → Kept f s (from_stream f.stream_id s r)
from_stream-Kept f s t (done t') v there w = known-IsSession f.stream_id t t' s v there w
from_stream-Kept f s t (failed e t') v there w = known-IsSession f.stream_id t t' s v there w
from_stream-Kept f s t Reply.panic v there w = absurd w

of_stream-Kept :
    (now : ℕ) (f : Frame) (s : Session)
    → IsSession s
    → f.length ≡ payload_len f
    → Kept f s (handle_frame_of_stream now f s)
unfolding handle_frame_of_stream
of_stream-Kept now f s v e = elim (Option-cases (lookup f.stream_id s.streams)) [
  | inl missing ↦ rw (missing, handle_frame_of_stream) v
  | inr (t, there) ↦
      elim (handle_stream_frame-Fine now f t (AllSound-lookup f.stream_id s.streams t v.sound there)
        e) [
          | inl (reset, shut, p) ↦
              rw (there, handle_frame_of_stream, p) (inl (reset, (t, there, shut)))
          | inr (_, fine) ↦
              rw (there, handle_frame_of_stream)
                (from_stream-Kept f s t (handle_stream_frame now f t) v there fine)
        ]
]

pub opened-IsStream :
    (id priority now : ℕ) (s : Session)
    → s.config.initial_window_size < 2 ^ 63
    → IsStream (opened_stream id priority now s)
opened-IsStream id priority now s h =
    let v = new-IsStream id s.config.initial_window_size now h in
    record {
      ring = v.ring;
      slots = v.slots;
      credit_bounded = v.credit_bounded;
      window_small = v.window_small;
      channel = v.channel;
    }

pub register-IsSession :
    (id : ℕ) (t : Stream) (s : Session)
    → IsSession s
    → IsStream t
    → length s.streams < s.config.max_concurrent_streams
    → IsSession (register id t s)
register-IsSession id t s v w h = record {
  sound = AllSound-insert id t s.streams w v.sound;
  bounded = omega (arith, length-insert_le id t s.streams);
  window_small = v.window_small;
}

offer-Kept : (f : Frame) (id : ℕ) (s s' : Session) → IsSession s' → Kept f s (offer id s')
offer-Kept f id s s' v = ground arith

open-dispatch {ℓ} :
    (P : Handled → Type ℓ) (now : ℕ) (f : Frame) (s : Session)
    → ((code : ℕ) → P (sent s (write_frame (new_stream_reset_frame f.stream_id code) s.link)))
    → (length s.streams < s.config.max_concurrent_streams
        → P (
            offer f.stream_id (
              register f.stream_id
                (opened_stream f.stream_id (get_priority f) now s)
                (record s { streams_created = count_64 s.streams_created }))))
    → P (handle_stream_open_frame now f s)
unfolding handle_stream_open_frame
open-dispatch P now f s refused accepted =
    ground (arith, refused error_code_protocol_error, refused error_code_refused_stream)

stream_open-Kept :
    (now : ℕ) (f : Frame) (s : Session) → IsSession s → Kept f s (handle_stream_open_frame now f s)
stream_open-Kept now f s v =
    open-dispatch (Kept f s) now f s
      (λ code. sent-Kept f s (write_frame (new_stream_reset_frame f.stream_id code) s.link) v)
      (λ room.
        let s' = record s { streams_created = count_64 s.streams_created } in
        let t = opened_stream f.stream_id (get_priority f) now s in
        offer-Kept f f.stream_id s (register f.stream_id t s') (
          register-IsSession f.stream_id t s'
            (record { sound = v.sound; bounded = v.bounded; window_small = v.window_small })
            (opened-IsStream f.stream_id (get_priority f) now s v.window_small) room))

ping-Kept : (f : Frame) (s : Session) → IsSession s → Kept f s (handle_ping_frame f s)
unfolding handle_ping_frame
ping-Kept f s v = elim (Bool-cases (is_ack f)) [
  | inl e ↦ rw e (push_pong-IsSession f.payload s v)
  | inr e ↦ rw e (sent-Kept f s (write_frame (new_pong_frame f.payload) s.link) v)
]

pong-Kept : (f : Frame) (s : Session) → IsSession s → Kept f s (handle_pong_frame f s)
unfolding handle_pong_frame
pong-Kept f s v =
    push_pong-IsSession f.payload (record s { pongs_received = count_64 s.pongs_received })
      (record { sound = v.sound; bounded = v.bounded; window_small = v.window_small })

go_away-Kept :
    (f : Frame) (s : Session)
    → IsSession s
    → f.type ≡ frame_type_go_away
    → validate f ≡ none
    → Kept f s (handle_go_away_frame f s)
unfolding handle_go_away_frame
go_away-Kept f s v t good = elim (Option-cases (get_error_code f)) [
  | inl e ↦ absurd ((validate-getters f good).1 e)
  | inr (code, e) ↦ rw (e, handle_go_away_frame) (closed-Kept code)
]
  where
    emptied-IsSession : (s' : Session) → s'.streams ≡ [] → s'.config ≡ s.config → IsSession s'
    emptied-IsSession s' empty config = record {
      sound = subst AllSound (sym empty) tt;
      bounded = omega (arith, ap (length {A = ℕ × Stream}) empty);
      window_small = omega (arith, ap (λ c. c.initial_window_size) config, v.window_small);
    }

    closed-Kept :
        (code : ℕ)
        → Kept f s (elim (close_with_error code s) [ none ↦ Handled.panic | some s' ↦ ok s' ])
    closed-Kept code = elim (Bool-cases s.link.closed) [
      | inl shut ↦ rw (close_with_error-again code s shut) v
      | inr open_now ↦ elim (close_with_error-silent code s open_now) [
        | inl (bad, e) ↦ rw e (inr (t, open_now, bad))
        | inr (_, (s', e, empty, config, _, _)) ↦ rw e (emptied-IsSession s' empty config)
      ]
    ]

dispatch {ℓ} :
    (P : Handled → Type ℓ) (now : ℕ) (f : Frame) (s : Session)
    → P (handle_frame_of_stream now f s)
    → P (handle_stream_open_frame now f s)
    → P (handle_ping_frame f s)
    → P (handle_pong_frame f s)
    → (f.type ≡ frame_type_go_away → P (handle_go_away_frame f s))
    → P (ok s)
    → P (dispatch_frame now f s)
unfolding dispatch_frame
dispatch P now f s a b c d g other = ground arith

-- On a session whose streams have their books in order and are no more than configured, a frame
-- whose length is that of its payload leaves all that so, whether it is taken, refused, or waits
-- for room in the accept channel. The program panics only on a reset of a stream whose read side is
-- closed, or on a GO_AWAY while the session is open and has such a stream.
pub handle_frame-Kept :
    (now : ℕ) (f : Frame) (s : Session)
    → IsSession s
    → f.length ≡ payload_len f
    → Kept f s (handle_frame now f s)
unfolding handle_frame
handle_frame-Kept now f s v e = elim (Option-cases (validate f)) [
  | inl good ↦
      rw (good, handle_frame)
        (dispatch (Kept f s) now f s (of_stream-Kept now f s v e) (stream_open-Kept now f s v)
          (ping-Kept f s v) (pong-Kept f s v) (λ t. go_away-Kept f s v t good) v)
  | inr (x, bad) ↦ rw (bad, handle_frame) v
]
