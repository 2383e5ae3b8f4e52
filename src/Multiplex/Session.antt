-- ===== src/Multiplex/Session.antt =====
-- client/internal/multiplex/session.go: the session, its streams and its frames.
-- The map of streams holds each stream once, as its owner; the accept channel holds stream ids, of
-- which the session owns the streams. Each handler runs alone, and a send to a full accept channel
-- waits: it is the reply `blocks`. A panic of a stream ends the program. The logger and the wait
-- group are left out.
pub mod Ids
pub mod Handlers
pub mod Close
pub mod Books
pub mod Incoming
pub mod Outgoing
pub mod Idle
pub mod Tests
use gki_pass.Base.{
  Bool, List, Option, [], false, if◌then◌else◌, leb, length, ltb, max, none, not, some, suc, true,
  zero, ℕ, ◌%◌, ◌+◌, ◌==◌, ◌^◌, ◌||◌, ◌∷◌,
}
use gki_pass.Multiplex.Link.{Link, write_frame}
use gki_pass.Multiplex.Frame.{max_stream_id, new_go_away_frame}
use gki_pass.Multiplex.Frame.Wire.{Writer}
use gki_pass.Multiplex.Stream.{Stream, closed, force_close}
use mathlib.Core.Option

-- The parts of `SessionConfig` that the code reads here; the idle timeout is in seconds.
pub record SessionConfig : Type 0 where
  pub initial_window_size : ℕ
  pub max_concurrent_streams : ℕ
  pub stream_idle_timeout : ℕ

pub record Session : Type 0 where
  pub config : SessionConfig
  pub is_client : Bool
  pub streams : List (ℕ × Stream)
  pub next_stream_id : ℕ
  pub link : Link
  pub close_reason : Option ℕ
  pub cancelled : Bool
  pub accept_queue : List ℕ
  pub pongs : List (Option (List ℕ))
  pub streams_created : ℕ
  pub streams_closed : ℕ
  pub pings_sent : ℕ
  pub pongs_received : ℕ

-- `NewSession`
unfoldable pub new_session : SessionConfig → Bool → Writer → Session
new_session config is_client writer = record {
  config = config;
  is_client = is_client;
  streams = [];
  next_stream_id = if is_client then 1 else 2;
  link = record { closed = false; writer = writer; frames_sent = 0; bytes_sent = 0 };
  close_reason = none;
  cancelled = false;
  accept_queue = [];
  pongs = [];
  streams_created = 0;
  streams_closed = 0;
  pings_sent = 0;
  pongs_received = 0;
}

-- The loop of `generateStreamID`: the id, if it was found within the rounds, and the counter.
unfoldable pub generate_from : ℕ → Bool → ℕ → Option ℕ × ℕ
generate_from zero is_client next = (none, next)
generate_from (suc rounds) is_client next =
    let id = (next + 2) % 2 ^ 32 in
    let again = generate_from rounds is_client (if is_client then 1 else 2) in
    if leb id max_stream_id then (some id, id) else again

-- `generateStreamID`: after a reset of the counter the second round finds an id.
unfoldable pub generate_stream_id : Session → Option ℕ × ℕ
unfolding generate_from
generate_stream_id s = generate_from 2 s.is_client s.next_stream_id

-- `s.isClient != isOdd`
differs : Bool → Bool → Bool
differs true b = not b
differs false b = b

-- `isValidStreamID`
unfoldable pub is_valid_stream_id : Bool → ℕ → Bool
unfolding differs
is_valid_stream_id is_client id =
    if id == 0 || ltb max_stream_id id then false else differs is_client (id % 2 == 1)

-- `getLastStreamID`
unfoldable pub last_id : List (ℕ × Stream) → ℕ
last_id [] = 0
last_id ((id, s) ∷ rest) = max id (last_id rest)

-- The loop of `closeAllStreams`; `none` is a panic.
unfoldable pub close_streams : List (ℕ × Stream) → Option (Unit {0})
close_streams [] = some tt
close_streams ((id, s) ∷ rest) = elim (force_close s) [ none ↦ none | some s' ↦ close_streams rest ]

abbrev pub closing : ℕ → Session → Session
closing code s = record s { link = record s.link { closed = true }; close_reason = some code }

abbrev pub emptied : Session → Session
emptied s = record s {
  cancelled = true;
  streams_closed = (s.streams_closed + length s.streams) % 2 ^ 64;
  streams = [];
}

-- `CloseWithError`, up to the wait for the background loops: the flag, the GO_AWAY frame, whose
-- error is dropped, and the streams. `none` is a panic.
unfoldable pub close_with_error : ℕ → Session → Option Session
close_with_error code s =
    if s.link.closed
    then some s
    else (let s' = closing code s in
        let (l, _) = write_frame (new_go_away_frame (last_id s'.streams) code none) s'.link in
        Option.map (λ _. emptied (record s' { link = l })) (close_streams s'.streams))
