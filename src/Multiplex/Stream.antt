-- ===== src/Multiplex/Stream.antt =====
-- client/internal/multiplex/stream.go: one stream, and the frames that the session hands to it.
-- Each operation runs alone. Times are Unix seconds and arguments; an `Int64` window is its bit
-- pattern. `closeNotify` is whether it is closed, and to close it twice is a panic, which ends the
-- program: `none`. `readNotify` and `writeNotify`, of capacity one, are whether a signal waits.
-- `writeBuf` is never written or read, and is left out, as are the logger and the creation time.
pub mod Output
pub mod Receive
pub mod Frames
pub mod Credit
pub mod Starvation
pub mod Send
pub mod Waits
pub mod Tests
use gki_pass.Base.{
  Bool, List, Option, [], false, if◌then◌else◌, leb, length, ltb, none, some, true, ℕ, ◌%◌, ◌*◌,
  ◌+◌, ◌-◌, ◌/◌, ◌==◌, ◌^◌, ◌||◌, ◌∷◌,
}
use gki_pass.Multiplex.Ring.{RingBuffer, new_ring_buffer, read_ring, write_ring}
use gki_pass.Multiplex.Link.{Link, SendError, write_frame}
use gki_pass.Multiplex.Frame.{
  Frame, bytes_of, frame_type_data, frame_type_stream_close, frame_type_stream_reset,
  frame_type_window_update, get_error_code, get_window_increment, is_end_stream,
  new_window_update_frame,
}
use mathlib.Core.Option

pub data StreamState : Type 0 where
  idle open_stream half_closed closed reserved_local reserved_remote : StreamState

pub record Stream : Type 0 where
  pub id : ℕ
  pub state : StreamState
  pub priority : ℕ
  pub read_buf : RingBuffer
  pub read_closed : Bool
  pub write_closed : Bool
  pub send_window : ℕ
  pub recv_window : ℕ
  pub max_recv_window : ℕ
  pub read_notify : Bool
  pub write_notify : Bool
  pub close_notify : Bool
  pub bytes_read : ℕ
  pub bytes_written : ℕ
  pub last_activity : ℕ
  pub cancelled : Bool

-- `NewStream`
unfoldable pub new_stream : ℕ → ℕ → ℕ → Stream
unfolding new_ring_buffer
new_stream id initial_window now = record {
  id = id;
  state = idle;
  priority = 0;
  read_buf = new_ring_buffer (32 * 1024);
  read_closed = false;
  write_closed = false;
  send_window = initial_window;
  recv_window = initial_window;
  max_recv_window = initial_window;
  read_notify = false;
  write_notify = false;
  close_notify = false;
  bytes_read = 0;
  bytes_written = 0;
  last_activity = now;
  cancelled = false;
}

-- `close(s.closeNotify)`
abbrev pub close_channel : Stream → Option Stream
close_channel s = if s.close_notify then none else some (record s { close_notify = true })

abbrev pub notify_read : Stream → Stream
notify_read s = record s { read_notify = true }

abbrev pub notify_write : Stream → Stream
notify_write s = record s { write_notify = true }

abbrev pub update_activity : ℕ → Stream → Stream
update_activity now s = record s { last_activity = now }

-- `CloseRead`: it returns no error.
unfoldable pub close_read : Stream → Option Stream
close_read s =
    if s.read_closed
    then some s
    else Option.map notify_read (close_channel (record s { read_closed = true }))

-- `forceClose`
unfoldable pub force_close : Stream → Option Stream
force_close s = close_channel (
    notify_write (
      notify_read
        (record s { read_closed = true; write_closed = true; state = closed; cancelled = true })))

pub data StreamError : Type 0 where
  window_too_small buffer_full zero_window_increment eof buffer_empty write_side_closed :
      StreamError
  send_failed : SendError → StreamError

-- What comes back: a value, an error, or a panic.
pub data Reply (A : Type 0) : Type 0 where
  done : A → Reply A
  failed : StreamError → A → Reply A
  panic : Reply A

abbrev pub or_panic : {A : Type 0} → Option A → Reply A
or_panic none = panic
or_panic (some a) = done a

-- `window < n` of signed 64-bit integers, for an `n` that is not negative.
abbrev pub below : ℕ → ℕ → Bool
below window n = leb (2 ^ 63) window || ltb window n

unfoldable pub accept_data : Frame → Stream → RingBuffer × Bool → Reply Stream
accept_data f s (rb, false) = failed buffer_full s
accept_data f s (rb, true) =
    done (record s { read_buf = rb; recv_window = (s.recv_window + 2 ^ 64 - f.length) % 2 ^ 64 })

unfoldable pub end_of_data : Frame → Reply Stream → Reply Stream
end_of_data f (done s) =
    if is_end_stream f
    then or_panic (Option.map notify_read (close_read s))
    else done (notify_read s)
end_of_data f (failed e s) = failed e s
end_of_data f panic = panic

unfoldable pub handle_data_frame : Frame → Stream → Reply Stream
unfolding accept_data
handle_data_frame f s =
    if below s.recv_window f.length
    then failed window_too_small s
    else end_of_data f (
        if ltb 0 f.length
        then accept_data f s (write_ring (bytes_of f.payload) s.read_buf)
        else done s)

unfoldable pub handle_window_update_frame : Frame → Stream → Reply Stream
handle_window_update_frame f s = elim (get_window_increment f) [
  | none ↦ panic
  | some increment ↦
      if increment == 0
      then failed zero_window_increment s
      else done (notify_write (record s { send_window = (s.send_window + increment) % 2 ^ 64 }))
]

unfoldable pub handle_stream_close_frame : Stream → Reply Stream
handle_stream_close_frame s = or_panic (close_read s)

unfoldable pub handle_stream_reset_frame : Frame → Stream → Reply Stream
handle_stream_reset_frame f s = elim (get_error_code f) [
  | none ↦ panic
  | some code ↦ or_panic (force_close s)
]

-- `Stream.handleFrame`; a frame of another type is only logged.
unfoldable pub handle_stream_frame : ℕ → Frame → Stream → Reply Stream
handle_stream_frame now f s =
    let s' = update_activity now s in
    if f.type == frame_type_data
    then handle_data_frame f s'
    else if f.type == frame_type_window_update
    then handle_window_update_frame f s'
    else if f.type == frame_type_stream_close
    then handle_stream_close_frame s'
    else if f.type == frame_type_stream_reset
    then handle_stream_reset_frame f s'
    else done s'

-- `updateRecvWindow`: the credit is given back only if the update could be sent.
credit : ℕ → Stream → Link × Option SendError → Stream × Link
credit n s (l, none) = (record s { recv_window = (s.recv_window + n) % 2 ^ 64 }, l)
credit n s (l, some e) = (s, l)

unfoldable pub update_recv_window : ℕ → Stream → Link → Stream × Link
unfolding credit
update_recv_window consumed s l =
    if ltb (s.max_recv_window / 2) consumed
    then credit consumed s (write_frame (new_window_update_frame s.id (consumed % 2 ^ 32)) l)
    else (s, l)

-- What a read comes to: bytes, an error, or waiting for a signal.
pub data ReadResult : Type 0 where
  bytes : List ℕ → ReadResult
  read_failed : StreamError → ReadResult
  waits : ReadResult

unfoldable pub read_some :
    ℕ → Stream → Link → RingBuffer × Option (List ℕ) → Stream × Link × ReadResult
read_some now s l (rb, none) = (s, l, read_failed buffer_empty)
read_some now s l (rb, some []) = (record s { read_buf = rb }, l, waits)
read_some now s l (rb, some (b ∷ bs)) =
    let n = length (b ∷ bs) in
    let s' =
      update_activity now (record s { read_buf = rb; bytes_read = (s.bytes_read + n) % 2 ^ 64 }) in
    let (s'', l') = update_recv_window n s' l in (s'', l', bytes (b ∷ bs))

-- `Read` into a slice of `n` bytes, up to its first wait.
unfoldable pub read_stream : ℕ → ℕ → Stream → Link → Stream × Link × ReadResult
unfolding read_some
read_stream now n s l =
    if s.read_closed then (s, l, read_failed eof) else read_some now s l (read_ring n s.read_buf)
