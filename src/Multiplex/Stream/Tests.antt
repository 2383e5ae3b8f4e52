-- ===== src/Multiplex/Stream/Tests.antt =====
-- stream.go: the theorems at concrete inputs: a new stream of the default window.
use gki_pass.Base.{
  List, [], arith, false, length, refl, some, true, ℕ, ◌++◌, ◌+◌, ◌||◌, ◌∷◌, ◌≡◌, ◌⊎◌,
}
use gki_pass.Base.Maps.{nat_eq, string_eq}
use gki_pass.Multiplex.Frame.{
  Frame, bytes_of, is_end_stream, new_data_frame, new_stream_reset_frame,
}
use gki_pass.Multiplex.Link.{Link}
use gki_pass.Multiplex.Ring.{new_ring_buffer}
use gki_pass.Multiplex.Ring.Queue.{contents}
use gki_pass.Multiplex.Ring.Refine.{length-contents}
use gki_pass.Multiplex.Stream.{
  Stream, StreamError, done, eof, failed, handle_data_frame, handle_stream_frame, new_stream,
  read_failed, read_stream,
}
use gki_pass.Multiplex.Stream.Output.{granted, write_stream}
use gki_pass.Multiplex.Stream.Receive.{HasRoom, IsStream, data-frame, new-IsStream}
use gki_pass.Multiplex.Stream.Frames.{FrameEnd, stream-frame}
use gki_pass.Multiplex.Stream.Credit.{Outcome, read-stream}
use gki_pass.Multiplex.Stream.Starvation.{
  Action, Receiver, act_all, act_all-starves, arrives, end_of_stream-loses, reads,
}
use gki_pass.Multiplex.Stream.Waits.{Spent, WriteEnd, write-accounted}

abbrev stream : Stream
stream = new_stream 3 65536 0

stream-IsStream : IsStream stream
stream-IsStream = new-IsStream 3 65536 0 (omega arith)

abbrev socket : Link
socket = record {
  closed = false;
  writer = record { out = []; budget = 1000 };
  frames_sent = 0;
  bytes_sent = 0;
}

abbrev hello : Frame
hello = new_data_frame 3 (some (104 ∷ 105 ∷ [])) true

stream-empty : length (contents stream.read_buf) ≡ 0
unfolding new_stream new_ring_buffer
stream-empty = length-contents stream.read_buf

stream-HasRoom : HasRoom hello stream
unfolding new_stream new_data_frame
stream-HasRoom = (omega arith, omega (arith, stream-empty))

data-frame_example :
    (HasRoom hello stream
      × ((s' : Stream) × (handle_data_frame hello stream ≡ done s')
          × IsStream s'
          × (contents s'.read_buf ≡ contents stream.read_buf ++ bytes_of hello.payload)
          × (s'.recv_window + hello.length ≡ stream.recv_window)
          × (s'.read_closed ≡ (stream.read_closed || is_end_stream hello))))
    ⊎ ((¬ HasRoom hello stream)
        × ((e : StreamError) × (handle_data_frame hello stream ≡ failed e stream)))
unfolding new_data_frame
data-frame_example = data-frame hello stream stream-IsStream refl

abbrev reset : Frame
reset = new_stream_reset_frame 3 8

stream-frame_example : FrameEnd reset stream (handle_stream_frame 9 reset stream)
unfolding new_stream_reset_frame
stream-frame_example = stream-frame 9 reset stream stream-IsStream refl

read-stream_example :
    let r = read_stream 9 100 stream socket in IsStream r.0 × Outcome 100 stream r.0 r.2
read-stream_example = read-stream 9 100 stream socket stream-IsStream

abbrev receiver : Receiver
receiver = record { stream = stream; link = socket; accepted = 0 }

abbrev actions : List Action
actions = arrives hello ∷ reads 9 100 ∷ []

act_all-starves_example :
    (act_all actions receiver).accepted + (act_all actions receiver).stream.recv_window
    ≡ 0 + stream.recv_window
unfolding new_data_frame new_stream
act_all-starves_example = act_all-starves actions receiver (refl, tt) stream-IsStream (omega arith)

end_of_stream-loses_example :
    (s' : Stream) × (handle_data_frame hello stream ≡ done s')
    × (contents s'.read_buf ≡ contents stream.read_buf ++ bytes_of hello.payload)
    × ((now n : ℕ) (l : Link) → read_stream now n s' l ≡ (s', l, read_failed eof))
unfolding new_data_frame is_end_stream
end_of_stream-loses_example =
    end_of_stream-loses hello stream stream-IsStream refl stream-HasRoom refl

-- Five bytes with a window of two: the write waits, gets one byte, waits, and gets three.
write-accounted_example :
    WriteEnd
      (granted 1 ∷ granted 3 ∷ [])
      0
      5
      2
      (write_stream
        (granted 1 ∷ granted 3 ∷ [])
        9
        (1 ∷ 2 ∷ 3 ∷ 4 ∷ 5 ∷ [])
        (record stream { send_window = 2 })
        socket).2
    × Spent (granted 1 ∷ granted 3 ∷ []) 0 2 (
        write_stream
          (granted 1 ∷ granted 3 ∷ [])
          9
          (1 ∷ 2 ∷ 3 ∷ 4 ∷ 5 ∷ [])
          (record stream { send_window = 2 })
          socket)
unfolding new_stream
write-accounted_example =
    write-accounted (granted 1 ∷ granted 3 ∷ []) 9 (1 ∷ 2 ∷ 3 ∷ 4 ∷ 5 ∷ [])
      (record stream { send_window = 2 }) socket refl (omega arith)
