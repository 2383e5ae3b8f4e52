-- ===== src/Multiplex/Frame/Parse.antt =====
-- frame.go: what `ReadFrom` accepts is the encoding of what it returns.
use gki_pass.Base.{
  List, Option, [], ap, append_assoc, arith, dec_le, dec_lt, drop, length, length-take, none, refl,
  some, sym, take, take-append-drop, ℕ, ◌++◌, ◌+◌, ◌<◌, ◌^◌, ◌∙◌, ◌∷◌, ◌≡◌, ◌≢◌, ◌≤◌,
}
use gki_pass.Base.Words.{Bytes, Bytes-take, put-uint32, uint32-lt}
use gki_pass.Multiplex.Frame.{Frame, bytes_of, max_frame_length}
use gki_pass.Multiplex.Frame.Wire.{
  Received, empty_frame, header, parse_header, read_frame, read_full, receive_body, receive_header,
}
use gki_pass.Multiplex.Frame.Trips.{FitsWire, encoding, read_frame-parts}

header-parse : (h : List ℕ) (g : Frame) → Bytes h → length h ≡ 10 → header (parse_header h g) ≡ h
unfolding parse_header header
header-parse (a ∷ b ∷ c ∷ d ∷ e ∷ f ∷ p ∷ q ∷ r ∷ s ∷ []) g
      (_, (_, (hc, (hd, (he, (hf, (hp, (hq, (hr, (hs, _)))))))))) n =
    ground (arith, put-uint32 c d e f hc hd he hf, put-uint32 p q r s hp hq hr hs)
header-parse _ g y n = absurd (omega arith)

same_header : (f : Frame) (p : Option (List ℕ)) → header (record f { payload = p }) ≡ header f
unfolding header
same_header f p = refl

parse-bounds :
    (h : List ℕ) (g : Frame)
    → Bytes h
    → length h ≡ 10
    → ((parse_header h g).type < 256)
      × ((parse_header h g).flags < 256)
      × ((parse_header h g).stream_id < 2 ^ 32)
unfolding parse_header
parse-bounds (a ∷ b ∷ c ∷ d ∷ e ∷ f ∷ p ∷ q ∷ r ∷ s ∷ []) g (ha, (hb, (hc, (hd, (he, (hf, _))))))
      n =
    (ha, hb, uint32-lt c d e f hc hd he hf)
parse-bounds _ g y n = absurd (omega arith)

read_full-fits :
    (n : ℕ) (input : List ℕ)
    → n ≤ length input
    → read_full n input ≡ (take n input, n, drop n input, none)
unfolding read_full
read_full-fits n input h = ground arith

read_full-short : (n : ℕ) (input : List ℕ) → length input < n → (read_full n input).3 ≢ none
unfolding read_full
read_full-short n [] h = ground arith
read_full-short n (x ∷ xs) h = ground arith

abbrev Accepts : Frame → List ℕ → Received → Type 0
Accepts g input r =
    (p : Option (List ℕ)) × (r.frame ≡ record g { payload = p })
    × (bytes_of p ++ r.rest ≡ input)
    × (g.length ≡ length (bytes_of p))
    × (g.length ≤ max_frame_length)
    × (r.read ≡ 10 + g.length)

receive_body-Accepts :
    (g : Frame) (input : List ℕ)
    → g.payload ≡ none
    → (receive_body g 10 input).error ≡ none
    → Accepts g input (receive_body g 10 input)
unfolding receive_body
receive_body-Accepts g input empty h = elim (dec_lt 0 g.length) [
  | no p ↦ (none, ground arith, ground arith, ground arith, ground arith, ground arith)
  | yes p ↦ elim (dec_le g.length (length input)) [
    | yes q ↦
        let l = read_full-fits g.length input q in
        let t = take-append-drop g.length input in
        let k = length-take g.length input in
        (
          some (take g.length input),
          ground (arith, l),
          ground (arith, l, t),
          ground (arith, k),
          ground (arith, l),
          ground (arith, l),
        )
    | no q ↦ absurd (ground (arith, read_full-short g.length input))
  ]
]

parse-payload : (h : List ℕ) (g : Frame) → (parse_header h g).payload ≡ g.payload
unfolding parse_header
parse-payload h g = refl

-- The parts of a read, put together.
frame-Accepts :
    (h input : List ℕ) (r : Received)
    → Bytes h
    → length h ≡ 10
    → Accepts (parse_header h empty_frame) input r
    → FitsWire r.frame × (encoding r.frame ++ r.rest ≡ h ++ input) × (r.read ≡ 10 + r.frame.length)
frame-Accepts h input r bytes n (p, e, whole, len, small, count) =
    let g = parse_header h empty_frame in
    let bounds = parse-bounds h empty_frame bytes n in
    let head : header r.frame ≡ h =
      ap header e ∙ same_header g p ∙ header-parse h empty_frame bytes n in
    (
      record {
        type_byte = ground (arith, e, bounds);
        flags_byte = ground (arith, e, bounds);
        stream_id_word = ground (arith, e, bounds);
        length_payload = ground (arith, e, len);
        length_small = ground (arith, e, small);
      },
      rw (head, append_assoc h (bytes_of r.frame.payload) r.rest)
          (ap (◌++◌ h) (ap (λ f. bytes_of f.payload ++ r.rest) e ∙ whole)),
      ground (arith, e, count),
    )

-- Whatever `ReadFrame` takes from a stream of bytes without an error is a frame that fits the wire,
-- what it consumed is exactly that frame's encoding, and the count that it reports is its length.
pub read_frame-accepts :
    (input : List ℕ)
    → Bytes input
    → (read_frame input).error ≡ none
    → FitsWire (read_frame input).frame
      × (encoding (read_frame input).frame ++ (read_frame input).rest ≡ input)
      × ((read_frame input).read ≡ 10 + (read_frame input).frame.length)
unfolding receive_header
read_frame-accepts input bytes ok = elim (dec_le 10 (length input)) [
  | no p ↦ absurd (ground (arith, read_frame-parts input, read_full-short 10 input))
  | yes p ↦
      let h = take 10 input in
      let g = parse_header h empty_frame in
      let n : length h ≡ 10 = omega (arith, length-take 10 input) in
      let r : read_frame input ≡ receive_body g 10 (drop 10 input) =
        rw (read_frame-parts input, read_full-fits 10 input p) refl in
      let parts =
        receive_body-Accepts g (drop 10 input) (parse-payload h empty_frame)
          (ap (λ k. k.error) (sym r) ∙ ok) in
      let (fits, whole, count) =
        frame-Accepts h (drop 10 input) (receive_body g 10 (drop 10 input))
          (Bytes-take 10 input bytes) n parts in
      rw r (fits, whole ∙ take-append-drop 10 input, count)
]
