-- ===== src/Multiplex/Stream/Output.antt =====
-- stream.go: what a stream sends by itself: `Write`, `CloseWrite` and `Reset`.
use gki_pass.Base.{
  Bool, List, Option, [], drop, false, if◌then◌else◌, length, ltb, min, none, some, suc, take, true,
  zero, ℕ, ◌%◌, ◌&&◌, ◌+◌, ◌-◌, ◌^◌, ◌∷◌,
}
use gki_pass.Multiplex.Link.{Link, SendError, write_frame}
use gki_pass.Multiplex.Frame.{new_data_frame, new_stream_close_frame, new_stream_reset_frame}
use gki_pass.Multiplex.Stream.{
  Stream, StreamError, force_close, notify_write, send_failed, update_activity, write_side_closed,
}

-- What a write comes to: how many bytes were sent, and why it stopped there. `blocked` stands for a
-- write that still waits, and `out_of_fuel` for a loop that is cut off by the model.
pub data WriteResult : Type 0 where
  written : ℕ → WriteResult
  write_failed : StreamError → ℕ → WriteResult
  cancelled blocked out_of_fuel : ℕ → WriteResult

-- `s.sendWindow.Load()` is positive, as a signed 64-bit integer.
abbrev pub window_open : Stream → Bool
window_open s = ltb 0 s.send_window && ltb s.send_window (2 ^ 63)

unfoldable pub after_chunk :
    ℕ → ℕ → Stream → Link × Option SendError → Stream × Link × Option SendError
after_chunk now n s (l, some e) = (s, l, some e)
after_chunk now n s (l, none) = (
  update_activity now (record s {
    send_window = s.send_window - n;
    bytes_written = (s.bytes_written + n) % 2 ^ 64;
  }),
  l,
  none,
)

-- The body of the loop, when the window is open: one data frame with as much as the window allows.
unfoldable pub send_chunk : ℕ → List ℕ → Stream → Link → Stream × Link × Option SendError
unfolding after_chunk
send_chunk now chunk s l =
    after_chunk now (length chunk) s (write_frame (new_data_frame s.id (some chunk) false) l)

-- The loop of `Write` over the bytes that remain, up to its first wait.
unfoldable pub write_loop : ℕ → ℕ → List ℕ → ℕ → Stream → Link → Stream × Link × WriteResult
write_loop zero now bs n s l = (s, l, out_of_fuel n)
write_loop (suc fuel) now [] n s l = (s, l, written n)
write_loop (suc fuel) now (b ∷ bs) n s l =
    let size = min (length (b ∷ bs)) s.send_window in
    let (s', l', e) = send_chunk now (take size (b ∷ bs)) s l in
    let rest = write_loop fuel now (drop size (b ∷ bs)) (n + size) s' l' in
    if window_open s
    then elim e [ none ↦ rest | some x ↦ (s', l', write_failed (send_failed x) n) ]
    else (s, l, blocked n)

-- What ends a wait: the window was increased, perhaps by nothing, or the context is done. Nothing else
-- that changes in the stream meanwhile matters to the loop.
pub data Wake : Type 0 where
  granted : ℕ → Wake
  stopped : Wake

-- A write that has to wait goes on by `go`.
abbrev pub on_wait :
    (ℕ → Stream → Link → Stream × Link × WriteResult)
    → Stream × Link × WriteResult
    → Stream × Link × WriteResult
on_wait go (s, l, blocked m) = go m s l
on_wait go (s, l, written m) = (s, l, written m)
on_wait go (s, l, write_failed e m) = (s, l, write_failed e m)
on_wait go (s, l, cancelled m) = (s, l, cancelled m)
on_wait go (s, l, out_of_fuel m) = (s, l, out_of_fuel m)

-- The loop of `Write` over what its waits end with, in their order. Between two waits a chunk empties
-- the buffer or the window, so that two rounds and the final test do.
unfoldable pub write_waits :
    List Wake → ℕ → List ℕ → ℕ → Stream → Link → Stream × Link × WriteResult
write_waits [] now bs n s l = write_loop 3 now bs n s l
write_waits (granted k ∷ wakes) now bs n s l =
    on_wait
      (λ m s' l'.
        write_waits wakes now (drop (m - n) bs) m
          (record s' { send_window = (s'.send_window + k) % 2 ^ 64 }) l')
      (write_loop 3 now bs n s l)
write_waits (stopped ∷ wakes) now bs n s l =
    on_wait (λ m s' l'. (s', l', cancelled m)) (write_loop 3 now bs n s l)

-- `Write`.
unfoldable pub write_stream : List Wake → ℕ → List ℕ → Stream → Link → Stream × Link × WriteResult
write_stream wakes now bs s l =
    if s.write_closed
    then (s, l, write_failed write_side_closed 0)
    else write_waits wakes now bs 0 s l

close_sent : Stream → Link × Option SendError → Stream × Link × Option SendError
close_sent s (l, some e) = (s, l, some e)
close_sent s (l, none) = (notify_write s, l, none)

-- `CloseWrite`, and `Close`.
unfoldable pub close_write : Stream → Link → Stream × Link × Option SendError
unfolding close_sent
close_write s l =
    if s.write_closed
    then (s, l, none)
    else close_sent (record s { write_closed = true }) (write_frame (new_stream_close_frame s.id) l)

reset_sent : Stream → Link × Option SendError → Option (Stream × Link × Option SendError)
reset_sent s (l, some e) = some (s, l, some e)
reset_sent s (l, none) = elim (force_close s) [ none ↦ none | some s' ↦ some (s', l, none) ]

-- `Reset`; `none` is a panic.
unfoldable pub reset_stream : ℕ → Stream → Link → Option (Stream × Link × Option SendError)
unfolding reset_sent
reset_stream code s l = reset_sent s (write_frame (new_stream_reset_frame s.id code) l)
