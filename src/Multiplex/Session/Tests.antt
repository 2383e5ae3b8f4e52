-- ===== src/Multiplex/Session/Tests.antt =====
-- session.go: the theorems at concrete inputs.
use gki_pass.Base.{[], arith, false, none, refl, some, true, ◌∷◌, ◌≡◌, ◌⊎◌}
use gki_pass.Base.Maps.{nat_eq, string_eq}
use gki_pass.Base.Int.{int_eq}
use gki_pass.Multiplex.Frame.{Frame, new_data_frame, new_stream_reset_frame}
use gki_pass.Multiplex.Frame.Wire.{write, write_to}
use gki_pass.Multiplex.Link.{session_closed, write_frame}
use gki_pass.Multiplex.Stream.{Stream, force_close, new_stream}
use gki_pass.Multiplex.Stream.Output.{reset_stream}
use gki_pass.Multiplex.Stream.Receive.{IsStream, new-IsStream}
use gki_pass.Multiplex.Session.{
  Session, SessionConfig, close_with_error, generate_stream_id, new_session,
}
use gki_pass.Multiplex.Session.Handlers.{
  cleanup_idle_streams, handle_frame, open_stream_with_priority, sweep,
}
use gki_pass.Multiplex.Session.Ids.{IsCounter}
use gki_pass.Multiplex.Session.Close.{AllOpen, close_with_error-silent}
use gki_pass.Multiplex.Session.Books.{IsSession}
use gki_pass.Multiplex.Session.Incoming.{Kept, handle_frame-Kept}
use gki_pass.Multiplex.Session.Outgoing.{OpenEnd, open-OpenEnd}

abbrev config : SessionConfig
config = record {
  initial_window_size = 65536;
  max_concurrent_streams = 2;
  stream_idle_timeout = 300;
}

abbrev fresh : Session
fresh = new_session config true (record { out = []; budget = 1000 })

abbrev taken : Stream
taken = new_stream 4 65536 0

-- A session with one stream, which was idle since the start.
abbrev busy : Session
busy = record fresh { streams = (4, taken) ∷ [] }

taken-IsStream : IsStream taken
taken-IsStream = new-IsStream 4 65536 0 (omega arith)

busy-IsSession : IsSession busy
unfolding new_session
busy-IsSession = record {
  sound = (taken-IsStream, tt);
  bounded = omega arith;
  window_small = omega arith;
}

busy-IsCounter : IsCounter busy
unfolding new_session
busy-IsCounter = record { in_range = omega arith; side = refl }

busy-AllOpen : AllOpen busy.streams
unfolding new_stream
busy-AllOpen = (refl, tt)

-- The first id of a client is 3.
first_id : generate_stream_id fresh ≡ (some 3, 3)
unfolding generate_stream_id new_session
first_id = refl

close_with_error-silent_example :
    ((¬ AllOpen busy.streams) × (close_with_error 8 busy ≡ none))
    ⊎ (AllOpen busy.streams
        × ((s' : Session) × (close_with_error 8 busy ≡ some s')
            × (s'.streams ≡ [])
            × (s'.config ≡ busy.config)
            × (s'.link ≡ record busy.link { closed = true })
            × ((f : Frame) → write_frame f s'.link ≡ (s'.link, some session_closed))))
unfolding new_session
close_with_error-silent_example = close_with_error-silent 8 busy refl

abbrev hello : Frame
hello = new_data_frame 4 (some (104 ∷ 105 ∷ [])) false

handle_frame-Kept_example : Kept hello busy (handle_frame 9 hello busy)
unfolding new_data_frame
handle_frame-Kept_example = handle_frame-Kept 9 hello busy busy-IsSession refl

open-OpenEnd_example : OpenEnd 1 9 busy (open_stream_with_priority 1 9 busy)
open-OpenEnd_example = open-OpenEnd 1 9 busy busy-IsSession busy-IsCounter

-- The sweep panics on an idle stream that the peer has closed.
idle_panic :
    cleanup_idle_streams 301
      (record busy { streams = (4, record taken { read_closed = true; close_notify = true }) ∷ [] })
    ≡ none
unfolding cleanup_idle_streams sweep reset_stream new_session write_frame force_close write_to write
    new_stream new_stream_reset_frame
idle_panic = refl
