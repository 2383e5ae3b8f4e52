-- ===== src/Multiplex/Stream/Receive.antt =====
-- stream.go: what the frames of the peer and the reads of the application do to a stream.
use gki_pass.Base.{
  Bool-cases, [], ap, arith, dec_lt, false, if◌then◌else◌, inl, inr, length, length-replicate, ltb,
  nil_of_length, none, refl, some, true, ℕ, ◌*◌, ◌++◌, ◌+◌, ◌-◌, ◌<◌, ◌^◌, ◌||◌, ◌↔◌, ◌∙◌, ◌≡◌, ◌≤◌,
  ◌⊎◌,
}
use gki_pass.Multiplex.Ring.{write_ring}
use gki_pass.Multiplex.Ring.Queue.{IsRing, contents, window}
use gki_pass.Multiplex.Ring.Refine.{new-IsRing, write-contents, write-nil, write-size}
use gki_pass.Multiplex.Frame.{Frame, bytes_of, is_end_stream, payload_len}
use gki_pass.Multiplex.Stream.{
  Stream, StreamError, below, buffer_full, close_read, done, end_of_data, failed, force_close,
  handle_data_frame, new_stream, notify_read, window_too_small,
}

-- The stream's own books: the receive buffer is a queue of 32 KB, the credit that is still out and
-- the bytes that wait to be read come to no more than the window, and the close channel is closed
-- exactly when the read side is.
pub record IsStream (s : Stream) : Type 0 where
  pub ring : IsRing s.read_buf
  pub slots : length s.read_buf.buf ≡ 32 * 1024
  pub credit_bounded : s.recv_window + s.read_buf.size ≤ s.max_recv_window
  pub window_small : s.max_recv_window < 2 ^ 63
  pub channel : s.close_notify ≡ s.read_closed

pub new-IsStream :
    (id initial_window now : ℕ)
    → initial_window < 2 ^ 63
    → IsStream (new_stream id initial_window now)
unfolding new_stream
new-IsStream id w now h = record {
  ring = (new-IsRing (32 * 1024) (omega arith)).0;
  slots = length-replicate {A = ℕ} (32 * 1024) 0;
  credit_bounded = omega arith;
  window_small = h;
  channel = refl;
}

-- What closing the read side leaves.
abbrev pub read_side_closed : Stream → Stream
read_side_closed s =
    if s.read_closed
    then s
    else record s { read_closed = true; close_notify = true; read_notify = true }

pub close_read-some : (s : Stream) → IsStream s → close_read s ≡ some (read_side_closed s)
unfolding close_read
close_read-some s v = ground arith

pub read_side_closed-IsStream : (s : Stream) → IsStream s → IsStream (read_side_closed s)
read_side_closed-IsStream s v = ground arith

pub force_close-none : (s : Stream) → (force_close s ≡ none) ↔ (s.close_notify ≡ true)
unfolding force_close
force_close-none s = ground arith

pub force_close-IsStream : (s s' : Stream) → IsStream s → force_close s ≡ some s' → IsStream s'
unfolding force_close
force_close-IsStream s s' v e = ground arith

-- What a data frame that fits the credit and the buffer leaves.
abbrev data_stored : Frame → Stream → Stream
data_stored f s = record s {
  read_buf = (write_ring (bytes_of f.payload) s.read_buf).0;
  recv_window = s.recv_window - f.length;
}

data_stored-IsStream :
    (f : Frame) (s : Stream)
    → IsStream s
    → f.length ≡ payload_len f
    → f.length ≤ s.recv_window
    → (write_ring (bytes_of f.payload) s.read_buf).1 ≡ true
    → IsStream (data_stored f s)
data_stored-IsStream f s v e h k =
    let (ring, size, _) = write-contents (bytes_of f.payload) s.read_buf v.ring in
    let more = write-size (bytes_of f.payload) s.read_buf k in
    record {
      ring = ring;
      slots = size ∙ v.slots;
      credit_bounded = omega (arith, more, e, v.credit_bounded);
      window_small = v.window_small;
      channel = v.channel;
    }

-- What accepting a data frame leaves: with its flag the read side closes.
abbrev data_ended : Frame → Stream → Stream
data_ended f s = if is_end_stream f then notify_read (read_side_closed s) else notify_read s

data_ended-IsStream : (f : Frame) (s : Stream) → IsStream s → IsStream (data_ended f s)
data_ended-IsStream f s v = elim (Bool-cases (is_end_stream f)) [
  | inl e ↦
      let w = read_side_closed-IsStream s v in
      rw e (record {
        ring = w.ring;
        slots = w.slots;
        credit_bounded = w.credit_bounded;
        window_small = w.window_small;
        channel = w.channel;
      })
  | inr e ↦ rw e (record {
    ring = v.ring;
    slots = v.slots;
    credit_bounded = v.credit_bounded;
    window_small = v.window_small;
    channel = v.channel;
  })
]

data_ended-fields :
    (f : Frame) (s : Stream)
    → ((data_ended f s).read_buf ≡ s.read_buf)
      × ((data_ended f s).recv_window ≡ s.recv_window)
      × ((data_ended f s).max_recv_window ≡ s.max_recv_window)
      × ((data_ended f s).read_closed ≡ (s.read_closed || is_end_stream f))
data_ended-fields f s = ground arith

end_of_data-done :
    (f : Frame) (s : Stream) → IsStream s → end_of_data f (done s) ≡ done (data_ended f s)
unfolding end_of_data
end_of_data-done f s v = elim (Bool-cases (is_end_stream f)) [
  | inl e ↦ rw (e, close_read-some s v) refl
  | inr e ↦ rw e
]

-- A data frame of the stream: what it holds fits the credit and the buffer.
abbrev pub HasRoom : Frame → Stream → Type 0
HasRoom f s = (f.length ≤ s.recv_window) × (length (contents s.read_buf) + f.length ≤ 32 * 1024)

data_stored-nil :
    (f : Frame) (s : Stream)
    → IsStream s
    → f.length ≡ 0
    → bytes_of f.payload ≡ []
    → s ≡ data_stored f s
data_stored-nil f s v e empty = ground (arith, empty, write-nil s.read_buf v.ring)

data-accepted :
    (f : Frame) (s : Stream)
    → IsStream s
    → f.length ≡ payload_len f
    → f.length ≤ s.recv_window
    → (write_ring (bytes_of f.payload) s.read_buf).1 ≡ true
    → handle_data_frame f s ≡ done (data_ended f (data_stored f s))
unfolding handle_data_frame
data-accepted f s v e h k =
    let fits : below s.recv_window f.length ≡ false =
      ground (arith, v.credit_bounded, v.window_small) in
    rw fits (elim (dec_lt 0 f.length) [
      | yes p ↦
          let some_bytes : ltb 0 f.length ≡ true = ground arith in
          rw some_bytes (
            ground (
              arith,
              k,
              v.credit_bounded,
              v.window_small,
              end_of_data-done f (data_stored f s) (data_stored-IsStream f s v e h k),
            ))
      | no p ↦
          let no_bytes : ltb 0 f.length ≡ false = ground arith in
          let empty : bytes_of f.payload ≡ [] = nil_of_length (bytes_of f.payload) (omega arith) in
          rw no_bytes (
            end_of_data-done f s v
            ∙ ap (λ t. done (data_ended f t)) (data_stored-nil f s v (omega arith) empty))
    ])

data-refused :
    (f : Frame) (s : Stream)
    → IsStream s
    → f.length ≡ payload_len f
    → (s.recv_window < f.length) ⊎ ((write_ring (bytes_of f.payload) s.read_buf).1 ≡ false)
    → (e : StreamError) × (handle_data_frame f s ≡ failed e s)
unfolding handle_data_frame end_of_data
data-refused f s v e (inl h) =
    let full : below s.recv_window f.length ≡ true = ground arith in (window_too_small, rw full)
data-refused f s v e (inr k) = elim (Bool-cases (below s.recv_window f.length)) [
  | inl full ↦ (window_too_small, rw full)
  | inr fits ↦ elim (dec_lt 0 f.length) [
    | yes p ↦ (buffer_full, rw fits (ground (arith, k)))
    | no p ↦
        let empty : bytes_of f.payload ≡ [] = nil_of_length (bytes_of f.payload) (omega arith) in
        absurd (ground (arith, k, empty, write-nil s.read_buf v.ring))
  ]
]

-- A data frame whose length is that of its payload, on a stream whose books are in order: if it
-- fits the credit and the free part of the buffer, its bytes are added behind those that wait, the
-- credit falls by its length, and the read side is closed if it was or if the frame ends the
-- stream; otherwise it is refused with an error and nothing changes. There is no panic, and the
-- books stay in order.
pub data-frame :
    (f : Frame) (s : Stream)
    → IsStream s
    → f.length ≡ payload_len f
    → (HasRoom f s
        × ((s' : Stream) × (handle_data_frame f s ≡ done s')
            × IsStream s'
            × (contents s'.read_buf ≡ contents s.read_buf ++ bytes_of f.payload)
            × (s'.recv_window + f.length ≡ s.recv_window)
            × (s'.read_closed ≡ (s.read_closed || is_end_stream f))))
      ⊎ ((¬ HasRoom f s) × ((e : StreamError) × (handle_data_frame f s ≡ failed e s)))
data-frame f s v e =
    let (ring, size, cases) = write-contents (bytes_of f.payload) s.read_buf v.ring in
    let (buf, window, _, shut) = data_ended-fields f (data_stored f s) in
    elim (dec_lt s.recv_window f.length) [
      | yes p ↦ inr ((λ h. absurd (omega (arith, h.0))), data-refused f s v e (inl p))
      | no p ↦ elim cases [
        | inl (room, k, held) ↦
            let h : f.length ≤ s.recv_window = omega arith in
            inl (
              (h, omega (arith, v.slots)),
              (
                data_ended f (data_stored f s),
                data-accepted f s v e h k,
                data_ended-IsStream f (data_stored f s) (data_stored-IsStream f s v e h k),
                ap contents buf ∙ held,
                omega (arith, window),
                shut,
              ),
            )
        | inr (full, k, _) ↦
            inr ((λ h. absurd (omega (arith, h.1, v.slots))), data-refused f s v e (inr k))
      ]
    ]
