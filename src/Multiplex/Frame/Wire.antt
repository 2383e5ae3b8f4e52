-- ===== src/Multiplex/Frame/Wire.antt =====
-- frame.go: `WriteTo` and `ReadFrom`. A reader is the list of the bytes that are still to come,
-- and ends there. A writer takes bytes until its budget is used up, and fails from then on.
use gki_pass.Base.{
  List, Option, [], drop, get_or, if◌then◌else◌, leb, length, ltb, none, replicate, some, take, ℕ,
  ◌++◌, ◌+◌, ◌-◌, ◌∷◌,
}
use gki_pass.Base.Words.{put_uint32, uint32}
use gki_pass.Multiplex.Frame.{Frame, frame_header_length, max_frame_length}

pub data IoError : Type 0 where
  eof unexpected_eof broken : IoError
  frame_too_long : ℕ → IoError

pub record Writer : Type 0 where
  pub out : List ℕ
  pub budget : ℕ

-- `w.Write(data)`: the writer, the count of bytes written, and the error of a short write.
unfoldable pub write : List ℕ → Writer → Writer × ℕ × Option IoError
write bs w =
    if leb (length bs) w.budget
    then (record { out = w.out ++ bs; budget = w.budget - length bs }, length bs, none)
    else (record { out = w.out ++ take w.budget bs; budget = 0 }, w.budget, some broken)

-- The ten bytes of the header.
unfoldable pub header : Frame → List ℕ
unfolding put_uint32
header f = f.type ∷ f.flags ∷ (put_uint32 f.stream_id ++ put_uint32 f.length)

add_written : ℕ → Writer × ℕ × Option IoError → Writer × ℕ × Option IoError
add_written written (w, n, e) = (w, written + n, e)

-- The second write, of a payload that is not nil.
unfoldable pub write_payload : Option (List ℕ) → ℕ → Writer → Writer × ℕ × Option IoError
unfolding add_written
write_payload none n w = (w, n, none)
write_payload (some bs) n w = add_written n (write bs w)

unfoldable pub write_rest : Frame → Writer × ℕ × Option IoError → Writer × ℕ × Option IoError
write_rest f (w, n, some e) = (w, n, some e)
write_rest f (w, n, none) = if ltb 0 f.length then write_payload f.payload n w else (w, n, none)

-- `WriteTo`
unfoldable pub write_to : Frame → Writer → Writer × ℕ × Option IoError
unfolding write header write_payload write_rest
write_to f w = write_rest f (write (header f) w)

-- `io.ReadFull` into a fresh slice of `n` bytes: the slice, the count, what is still to come, and
-- the error of a reader that ends too soon.
unfoldable pub read_full : ℕ → List ℕ → List ℕ × ℕ × List ℕ × Option IoError
read_full n input = if leb n (length input) then (take n input, n, drop n input, none) else (
  input ++ replicate (n - length input) 0,
  length input,
  [],
  elim input [ [] ↦ some eof | _ ∷ _ ↦ some unexpected_eof ],
)

pub record Received : Type 0 where
  pub frame : Frame
  pub read : ℕ
  pub rest : List ℕ
  pub error : Option IoError

-- The fields that the header gives.
unfoldable pub parse_header : List ℕ → Frame → Frame
unfolding uint32
parse_header h f = record f {
  type = get_or h 0 0;
  flags = get_or h 1 0;
  stream_id = uint32 (get_or h 2 0) (get_or h 3 0) (get_or h 4 0) (get_or h 5 0);
  length = uint32 (get_or h 6 0) (get_or h 7 0) (get_or h 8 0) (get_or h 9 0);
}

unfoldable pub receive_payload : Frame → ℕ → List ℕ × ℕ × List ℕ × Option IoError → Received
receive_payload f n (bs, m, rest, e) = record {
  frame = record f { payload = some bs };
  read = n + m;
  rest = rest;
  error = e;
}

unfoldable pub receive_body : Frame → ℕ → List ℕ → Received
unfolding read_full receive_payload
receive_body f n rest =
    if ltb max_frame_length f.length
    then record { frame = f; read = n; rest = rest; error = some (frame_too_long f.length) }
    else if ltb 0 f.length
    then receive_payload f n (read_full f.length rest)
    else record { frame = f; read = n; rest = rest; error = none }

unfoldable pub receive_header : Frame → List ℕ × ℕ × List ℕ × Option IoError → Received
receive_header f (h, n, rest, none) = receive_body (parse_header h f) n rest
receive_header f (h, n, rest, some e) = record { frame = f; read = n; rest = rest; error = some e }

-- `ReadFrom`
unfoldable pub read_from : Frame → List ℕ → Received
unfolding read_full parse_header receive_body receive_header
read_from f input = receive_header f (read_full frame_header_length input)

-- `&Frame{}`
abbrev pub empty_frame : Frame
empty_frame = record { type = 0; flags = 0; stream_id = 0; length = 0; payload = none }

-- `FrameReader.ReadFrame` of session.go.
unfoldable pub read_frame : List ℕ → Received
unfolding read_from
read_frame input = read_from empty_frame input
