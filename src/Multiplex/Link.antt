-- ===== src/Multiplex/Link.antt =====
-- client/internal/multiplex/session.go: `writeFrame`, the way from the streams to the connection.
-- `writeMutex` makes it atomic; only one side writes, so the bytes written are the link's history.
use gki_pass.Base.{Bool, Option, if◌then◌else◌, none, some, ℕ, ◌%◌, ◌+◌, ◌^◌}
use gki_pass.Multiplex.Frame.{Frame, frame_header_length}
use gki_pass.Multiplex.Frame.Wire.{IoError, Writer, write_to}

pub data SendError : Type 0 where
  session_closed : SendError
  io_error : IoError → SendError

-- What `writeFrame` uses of the session.
pub record Link : Type 0 where
  pub closed : Bool
  pub writer : Writer
  pub frames_sent : ℕ
  pub bytes_sent : ℕ

sent_frame : Frame → Link → Writer × ℕ × Option IoError → Link × Option SendError
sent_frame f l (w, n, some e) = (record l { writer = w }, some (io_error e))
sent_frame f l (w, n, none) = (
  record l {
    writer = w;
    frames_sent = (l.frames_sent + 1) % 2 ^ 64;
    bytes_sent = (l.bytes_sent + (f.length + frame_header_length) % 2 ^ 32) % 2 ^ 64;
  },
  none,
)

-- `Session.writeFrame`
unfoldable pub write_frame : Frame → Link → Link × Option SendError
unfolding sent_frame
write_frame f l =
    if l.closed then (l, some session_closed) else sent_frame f l (write_to f l.writer)
