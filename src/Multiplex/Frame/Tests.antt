-- ===== src/Multiplex/Frame/Tests.antt =====
-- frame.go: the theorems at concrete inputs, and runs of the reader and the writer.
use gki_pass.Base.{List, [], arith, none, refl, some, take, ℕ, ◌++◌, ◌+◌, ◌∷◌, ◌≡◌}
use gki_pass.Base.Maps.{nat_eq, string_eq}
use gki_pass.Base.Int.{int_eq}
use gki_pass.Multiplex.Frame.{
  Frame, get_error_code, get_last_stream_id, get_window_increment, new_go_away_frame,
  new_stream_reset_frame, new_window_update_frame, validate,
}
use gki_pass.Multiplex.Frame.Wire.{
  Writer, broken, frame_too_long, read_frame, unexpected_eof, write_to,
}
use gki_pass.Multiplex.Frame.Trips.{FitsWire, encoding, read-write, received}
use gki_pass.Multiplex.Frame.Valid.{}
use gki_pass.Multiplex.Frame.Parse.{read_frame-accepts}
use gki_pass.Multiplex.Frame.Messages.{control-carries}

abbrev hello : Frame
hello = record { type = 0; flags = 1; stream_id = 259; length = 2; payload = some (104 ∷ 105 ∷ []) }

abbrev hello_bytes : List ℕ
hello_bytes = 0 ∷ 1 ∷ 0 ∷ 0 ∷ 1 ∷ 3 ∷ 0 ∷ 0 ∷ 0 ∷ 2 ∷ 104 ∷ 105 ∷ []

abbrev socket : Writer
socket = record { out = []; budget = 100 }

hello-FitsWire : FitsWire hello
hello-FitsWire = record {
  type_byte = omega arith;
  flags_byte = omega arith;
  stream_id_word = omega arith;
  length_payload = refl;
  length_small = omega arith;
}

written : write_to hello socket ≡ (record { out = hello_bytes; budget = 88 }, 12, none)
unfolding write_to
written = refl

-- A writer that breaks inside the payload.
broken_off :
    write_to hello (record socket { budget = 11 })
    ≡ (record { out = take 11 hello_bytes; budget = 0 }, 11, some broken)
unfolding write_to
broken_off = refl

received_back :
    read_frame (hello_bytes ++ 7 ∷ [])
    ≡ record { frame = hello; read = 12; rest = 7 ∷ []; error = none }
unfolding read_frame
received_back = refl

cut_short : (read_frame (0 ∷ 1 ∷ [])).error ≡ some unexpected_eof
unfolding read_frame
cut_short = refl

too_long :
    (read_frame (0 ∷ 0 ∷ 0 ∷ 0 ∷ 0 ∷ 1 ∷ 1 ∷ 0 ∷ 0 ∷ 0 ∷ [])).error ≡ some (frame_too_long 16777216)
unfolding read_frame
too_long = refl

read-write_example :
    (sent : List ℕ) × (write_to hello socket ≡ (record { out = [] ++ sent; budget = 88 }, 12, none))
    × (read_frame (sent ++ 7 ∷ [])
        ≡ record { frame = received hello; read = 12; rest = 7 ∷ []; error = none })
read-write_example = read-write hello socket (7 ∷ []) hello-FitsWire (omega arith)

read_frame-accepts_example :
    FitsWire (read_frame hello_bytes).frame
    × (encoding (read_frame hello_bytes).frame ++ (read_frame hello_bytes).rest ≡ hello_bytes)
    × ((read_frame hello_bytes).read ≡ 10 + (read_frame hello_bytes).frame.length)
unfolding read_frame
read_frame-accepts_example = read_frame-accepts hello_bytes (omega arith) refl

abbrev short_go_away : Frame
short_go_away = record {
  type = 5;
  flags = 0;
  stream_id = 0;
  length = 4;
  payload = some (0 ∷ 0 ∷ 0 ∷ 0 ∷ []);
}

control-carries_example :
    let w = new_window_update_frame 3 70000 in
    let r = new_stream_reset_frame 3 8 in
    let g = new_go_away_frame 5 8 (some (1 ∷ [])) in
    ((validate w ≡ none) × (get_window_increment w ≡ some 70000))
    × ((validate r ≡ none) × (get_error_code r ≡ some 8))
    × ((validate g ≡ none) × (get_last_stream_id g ≡ some 5) × (get_error_code g ≡ some 8))
control-carries_example =
    control-carries 3 70000 8 5 (some (1 ∷ [])) (omega arith) (omega arith) (omega arith)
      (omega arith) (omega arith) (omega arith)
