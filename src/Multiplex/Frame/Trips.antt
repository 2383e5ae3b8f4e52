-- ===== src/Multiplex/Frame/Trips.antt =====
-- frame.go: what `ReadFrom` makes of what `WriteTo` wrote, and the other way round.
use gki_pass.Base.{
  List, Option-cases, [], ap, append-nil, append_assoc, arith, drop, if◌then◌else◌, inl, inr,
  length, length-append, ltb, nil_of_length, none, refl, take, ℕ, ◌++◌, ◌+◌, ◌-◌, ◌<◌, ◌^◌, ◌∷◌,
  ◌≡◌, ◌≤◌,
}
use gki_pass.Base.Words.{uint32-put}
use gki_pass.Multiplex.Frame.{Frame, bytes_of, max_frame_length, payload_len}
use gki_pass.Multiplex.Frame.Wire.{
  Writer, empty_frame, header, parse_header, read_frame, read_full, receive_body, receive_header,
  write, write_payload, write_rest, write_to,
}

-- A frame whose header fields fit their widths and whose length is that of its payload, within
-- the limit of `ReadFrom`.
pub record FitsWire (f : Frame) : Type 0 where
  pub type_byte : f.type < 256
  pub flags_byte : f.flags < 256
  pub stream_id_word : f.stream_id < 2 ^ 32
  pub length_payload : f.length ≡ payload_len f
  pub length_small : f.length ≤ max_frame_length

-- A payload without bytes is nil on the other side.
abbrev pub received : Frame → Frame
received f = record f { payload = if ltb 0 f.length then f.payload else none }

abbrev pub encoding : Frame → List ℕ
encoding f = header f ++ bytes_of f.payload

pub length-header : (f : Frame) → length (header f) ≡ 10
unfolding header
length-header f = refl

take-append_length : (xs ys : List ℕ) → take (length xs) (xs ++ ys) ≡ xs
take-append_length [] ys = refl
take-append_length (x ∷ xs) ys = ap (◌∷◌ x) (take-append_length xs ys)

drop-append_length : (xs ys : List ℕ) → drop (length xs) (xs ++ ys) ≡ ys
drop-append_length [] ys = refl
drop-append_length (x ∷ xs) ys = drop-append_length xs ys

read_full-append : (xs ys : List ℕ) → read_full (length xs) (xs ++ ys) ≡ (xs, length xs, ys, none)
unfolding read_full
read_full-append xs ys =
    rw (take-append_length xs ys, drop-append_length xs ys) (ground (arith, length-append xs ys))

parse-header :
    (f g : Frame) → FitsWire f → parse_header (header f) g ≡ record f { payload = g.payload }
unfolding parse_header header
parse-header f g h = ground (
  arith,
  uint32-put f.stream_id h.stream_id_word,
  uint32-put f.length (omega (arith, h.length_small)),
)

receive_body-encoding :
    (f : Frame) (rest : List ℕ)
    → FitsWire f
    → receive_body (record f { payload = none }) 10 (bytes_of f.payload ++ rest)
      ≡ record { frame = received f; read = 10 + f.length; rest = rest; error = none }
unfolding receive_body
receive_body-encoding f rest h = elim (Option-cases f.payload) [
  | inl e ↦ ground (arith, e)
  | inr (bs, e) ↦ ground (arith, e, read_full-append bs rest)
]

pub read_frame-parts :
    (input : List ℕ) → read_frame input ≡ receive_header empty_frame (read_full 10 input)
unfolding read_frame
read_frame-parts input = refl

read_full-header :
    (f : Frame) (rest : List ℕ)
    → read_full 10 (encoding f ++ rest) ≡ (header f, 10, bytes_of f.payload ++ rest, none)
unfolding header
read_full-header f rest = rw append_assoc (read_full-append (header f) (bytes_of f.payload ++ rest))

-- Reading what a frame that fits the wire is encoded as.
read_frame-encoding :
    (f : Frame) (rest : List ℕ)
    → FitsWire f
    → read_frame (encoding f ++ rest)
      ≡ record { frame = received f; read = 10 + f.length; rest = rest; error = none }
unfolding receive_header
read_frame-encoding f rest h =
    rw (read_frame-parts, read_full-header f rest, parse-header f empty_frame h)
      (receive_body-encoding f rest h)

write-fits :
    (bs : List ℕ) (w : Writer)
    → length bs ≤ w.budget
    → write bs w ≡ (record { out = w.out ++ bs; budget = w.budget - length bs }, length bs, none)
unfolding write
write-fits bs w h = ground arith

write_to-parts : (f : Frame) (w : Writer) → write_to f w ≡ write_rest f (write (header f) w)
unfolding write_to
write_to-parts f w = refl

write_to-out :
    (f : Frame) (w : Writer)
    → FitsWire f
    → 10 + f.length ≤ w.budget
    → write_to f w ≡ (
      record { out = w.out ++ encoding f; budget = w.budget - (10 + f.length) },
      10 + f.length,
      none,
    )
unfolding write_rest write_payload
write_to-out f w h enough =
    let w' : Writer = record { out = w.out ++ header f; budget = w.budget - 10 } in
    rw (write_to-parts, write-fits (header f) w (omega (arith, length-header f)), length-header f)
      (elim (Option-cases f.payload) [
        | inl e ↦ ground (arith, e, append-nil (header f))
        | inr (bs, e) ↦ ground (
          arith,
          e,
          ap (λ p. length (bytes_of p)) e,
          nil_of_length bs,
          write-fits bs w',
          append_assoc w.out (header f) bs,
          append-nil (header f),
        )
      ])

-- A frame whose header fields fit their widths and whose length is that of its payload and at most
-- 1 MB: a writer with room takes its ten header bytes and its payload and reports their number
-- without an error, and a reader of those bytes, whatever follows them, returns the frame, with a
-- nil payload if it is empty, counts the same number, and leaves what follows.
pub read-write :
    (f : Frame) (w : Writer) (rest : List ℕ)
    → FitsWire f
    → 10 + f.length ≤ w.budget
    → (sent : List ℕ) × (write_to f w ≡ (
      record { out = w.out ++ sent; budget = w.budget - (10 + f.length) },
      10 + f.length,
      none,
    ))
      × (read_frame (sent ++ rest)
          ≡ record { frame = received f; read = 10 + f.length; rest = rest; error = none })
read-write f w rest h enough = (encoding f, write_to-out f w h enough, read_frame-encoding f rest h)
