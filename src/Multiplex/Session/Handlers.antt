-- ===== src/Multiplex/Session/Handlers.antt =====
-- session.go: opening a stream, the frames that come in, and the sweep of idle streams.
use gki_pass.Base.{
  List, Option, [], false, if◌then◌else◌, leb, length, ltb, none, not, some, ℕ, ◌%◌, ◌++◌, ◌+◌,
  ◌==◌, ◌^◌, ◌||◌, ◌∷◌,
}
use gki_pass.Base.Maps.{delete, insert, lookup, nat_eq}
use gki_pass.Multiplex.Link.{Link, SendError, write_frame}
use gki_pass.Multiplex.Frame.{
  Frame, Invalid, frame_type_data, frame_type_go_away, frame_type_ping, frame_type_pong,
  frame_type_stream_close, frame_type_stream_open, frame_type_stream_reset,
  frame_type_window_update, get_error_code, get_priority, is_ack, new_ping_frame, new_pong_frame,
  new_stream_open_frame, new_stream_reset_frame, validate,
}
use gki_pass.Multiplex.Stream.{
  Reply, Stream, StreamError, done, failed, force_close, handle_stream_frame, new_stream,
  open_stream,
}
use gki_pass.Multiplex.Stream.Output.{reset_stream}
use gki_pass.Multiplex.Session.{Session, close_with_error, generate_stream_id, is_valid_stream_id}
use mathlib.Core.Option

pub data SessionError : Type 0 where
  session_shut too_many_streams context_done : SessionError
  not_sent : SendError → SessionError
  invalid_frame : Invalid → SessionError
  stream_error : StreamError → SessionError

-- What a handler comes to. `blocks` waits for room in the accept channel.
pub data Handled : Type 0 where
  ok : Session → Handled
  error : SessionError → Session → Handled
  blocks : Session → Handled
  panic : Handled

abbrev pub error_code_protocol_error : ℕ
error_code_protocol_error = 0x1

abbrev pub error_code_refused_stream : ℕ
error_code_refused_stream = 0x7

abbrev pub error_code_cancel : ℕ
error_code_cancel = 0x8

-- `return s.writeFrame(frame)`
abbrev pub sent : Session → Link × Option SendError → Handled
sent s (l, none) = ok (record s { link = l })
sent s (l, some e) = error (not_sent e) (record s { link = l })

abbrev pub count_64 : ℕ → ℕ
count_64 n = (n + 1) % 2 ^ 64

-- A stream that is opened here or by the peer.
abbrev pub opened_stream : ℕ → ℕ → ℕ → Session → Stream
opened_stream id priority now s = record (new_stream id s.config.initial_window_size now) {
  priority = priority;
  state = open_stream;
}

abbrev pub register : ℕ → Stream → Session → Session
register id stream s = record s { streams = insert id stream s.streams }

-- `removeStream`; `none` is a panic.
unfoldable pub remove_stream : ℕ → Session → Option Session
remove_stream id s = elim (lookup id s.streams) [
  | none ↦ some s
  | some stream ↦
      Option.map
        (λ _. record s {
          streams = delete id s.streams;
          streams_closed = count_64 s.streams_closed;
        })
        (force_close stream)
]

abbrev pub open_sent : ℕ → Session → Link × Option SendError → Handled × Option ℕ
open_sent id s (l, none) =
    (ok (record s { link = l; streams_created = count_64 s.streams_created }), some id)
open_sent id s (l, some e) = elim (remove_stream id (record s { link = l })) [
  | none ↦ (panic, none)
  | some s' ↦ (error (not_sent e) s', none)
]

-- Without an id the loop of `generateStreamID` would still be running.
abbrev pub open_with : ℕ → ℕ → Session → Option ℕ × ℕ → Handled × Option ℕ
open_with priority now s (none, next) = (blocks s, none)
open_with priority now s (some id, next) =
    let s' = register id (opened_stream id priority now s) (record s { next_stream_id = next }) in
    open_sent id s' (write_frame (new_stream_open_frame id priority) s'.link)

-- `OpenStreamWithPriority`: the session, and the id of the stream if there is one.
unfoldable pub open_stream_with_priority : ℕ → ℕ → Session → Handled × Option ℕ
open_stream_with_priority priority now s =
    if s.link.closed
    then (error session_shut s, none)
    else if leb s.config.max_concurrent_streams (length s.streams)
    then (error too_many_streams s, none)
    else open_with priority now s (generate_stream_id s)

abbrev pub from_stream : ℕ → Session → Reply Stream → Handled
from_stream id s (done stream) = ok (register id stream s)
from_stream id s (failed e stream) = error (stream_error e) (register id stream s)
from_stream id s Reply.panic = panic

-- `Session.handleStreamFrame`: a frame for a stream that is not there is dropped.
unfoldable pub handle_frame_of_stream : ℕ → Frame → Session → Handled
handle_frame_of_stream now f s = elim (lookup f.stream_id s.streams) [
  | none ↦ ok s
  | some stream ↦ from_stream f.stream_id s (handle_stream_frame now f stream)
]

-- The select on the accept channel, of capacity 32. With room the send is taken; Go may instead
-- choose the other case when the session is cancelled at the same time.
abbrev pub offer : ℕ → Session → Handled
offer id s =
    if ltb (length s.accept_queue) 32
    then ok (record s { accept_queue = s.accept_queue ++ id ∷ [] })
    else if s.cancelled
    then error context_done s
    else blocks s

unfoldable pub handle_stream_open_frame : ℕ → Frame → Session → Handled
handle_stream_open_frame now f s =
    let id = f.stream_id in
    if not (is_valid_stream_id s.is_client id)
    then sent s (write_frame (new_stream_reset_frame id error_code_protocol_error) s.link)
    else if leb s.config.max_concurrent_streams (length s.streams)
    then sent s (write_frame (new_stream_reset_frame id error_code_refused_stream) s.link)
    else offer id (
        register id (opened_stream id (get_priority f) now s)
          (record s { streams_created = count_64 s.streams_created }))

-- A send to the pong channel, of capacity 8: dropped when it is full.
abbrev pub push_pong : Option (List ℕ) → Session → Session
push_pong p s = if ltb (length s.pongs) 8 then record s { pongs = s.pongs ++ p ∷ [] } else s

unfoldable pub handle_ping_frame : Frame → Session → Handled
handle_ping_frame f s =
    if is_ack f
    then ok (push_pong f.payload s)
    else sent s (write_frame (new_pong_frame f.payload) s.link)

unfoldable pub handle_pong_frame : Frame → Session → Handled
handle_pong_frame f s =
    ok (push_pong f.payload (record s { pongs_received = count_64 s.pongs_received }))

unfoldable pub handle_go_away_frame : Frame → Session → Handled
handle_go_away_frame f s = elim (get_error_code f) [
  | none ↦ panic
  | some code ↦ elim (close_with_error code s) [ none ↦ panic | some s' ↦ ok s' ]
]

unfoldable pub dispatch_frame : ℕ → Frame → Session → Handled
dispatch_frame now f s =
    if f.type == frame_type_data
      || f.type == frame_type_window_update
      || f.type == frame_type_stream_close
      || f.type == frame_type_stream_reset
    then handle_frame_of_stream now f s
    else if f.type == frame_type_stream_open
    then handle_stream_open_frame now f s
    else if f.type == frame_type_ping
    then handle_ping_frame f s
    else if f.type == frame_type_pong
    then handle_pong_frame f s
    else if f.type == frame_type_go_away
    then handle_go_away_frame f s
    else ok s

-- `Session.handleFrame`; SETTINGS and unknown types are only logged.
unfoldable pub handle_frame : ℕ → Frame → Session → Handled
handle_frame now f s = elim (validate f) [
  | some e ↦ error (invalid_frame e) s
  | none ↦ dispatch_frame now f s
]

-- `Ping`
unfoldable pub ping : Option (List ℕ) → Session → Handled
ping contents s =
    sent (record s { pings_sent = count_64 s.pings_sent })
      (write_frame (new_ping_frame contents false) s.link)

abbrev pub swept : Session → ℕ → Option (Stream × Link × Option SendError) → Option Session
swept s id none = none
swept s id (some (stream, l, e)) = some (record s {
  link = l;
  streams = delete id s.streams;
  streams_closed = count_64 s.streams_closed;
})

-- The loops of `cleanupIdleStreams` over the streams found; `none` is a panic.
unfoldable pub sweep : ℕ → List (ℕ × Stream) → Session → Option Session
sweep now [] s = some s
sweep now ((id, stream) ∷ rest) s =
    let kept = sweep now rest s in
    let reset = swept s id (reset_stream error_code_cancel stream s.link) in
    let gone : Option Session = elim reset [ none ↦ none | some s' ↦ sweep now rest s' ] in
    if ltb (stream.last_activity + s.config.stream_idle_timeout) now then gone else kept

-- `cleanupIdleStreams`
unfoldable pub cleanup_idle_streams : ℕ → Session → Option Session
unfolding sweep
cleanup_idle_streams now s = sweep now s.streams s
