-- ===== src/Multiplex/Frame/Valid.antt =====
-- frame.go: which frames `Validate` lets pass, and what the getters read from those.
use gki_pass.Base.{
  List, [], arith, length, none, some, suc, zero, ℕ, ◌%◌, ◌+◌, ◌<◌, ◌^◌, ◌↔◌, ◌∷◌, ◌≡◌, ◌≢◌, ◌≤◌,
  ◌⊎◌,
}
use gki_pass.Multiplex.Frame.{
  Frame, bytes_of, frame_type_go_away, frame_type_ping, frame_type_pong, frame_type_settings,
  frame_type_stream_reset, frame_type_window_update, get_error_code, get_last_stream_id,
  get_window_increment, max_stream_id, payload_len, uint32_at, validate,
}

-- What the protocol asks of a frame.
pub record IsWellFormed (f : Frame) : Type 0 where
  pub stream_id_small : f.stream_id ≤ max_stream_id
  pub length_payload : f.length ≡ payload_len f % 2 ^ 32
  pub window_update :
      f.type ≡ frame_type_window_update → (f.length ≡ 4) × (get_window_increment f ≢ some 0)
  pub stream_reset : f.type ≡ frame_type_stream_reset → f.length ≡ 4
  pub go_away : f.type ≡ frame_type_go_away → (8 ≤ f.length) × (f.stream_id ≡ 0)
  pub connection :
      (f.type ≡ frame_type_ping) ⊎ (f.type ≡ frame_type_pong) ⊎ (f.type ≡ frame_type_settings)
      → f.stream_id ≡ 0

validate_sound : (f : Frame) → validate f ≡ none → IsWellFormed f
unfolding validate
validate_sound f h = record {
  stream_id_small = ground arith;
  length_payload = ground arith;
  window_update = λ t. ground arith;
  stream_reset = λ t. ground arith;
  go_away = λ t. ground arith;
  connection = λ t. ground arith;
}

validate_complete : (f : Frame) → IsWellFormed f → validate f ≡ none
unfolding validate
validate_complete f v = ground (arith, v.window_update, v.stream_reset, v.go_away, v.connection)

-- `Validate` reports no fault exactly for the frames that the protocol allows.
pub validate_iff : (f : Frame) → (validate f ≡ none) ↔ IsWellFormed f
validate_iff f = (validate_sound f, validate_complete f)

uint32_at_short : (i : ℕ) (bs : List ℕ) → (uint32_at i bs ≡ none) ↔ (length bs < i + 4)
unfolding uint32_at
uint32_at_short zero [] = ground arith
uint32_at_short zero (a ∷ []) = ground arith
uint32_at_short zero (a ∷ b ∷ []) = ground arith
uint32_at_short zero (a ∷ b ∷ c ∷ []) = ground arith
uint32_at_short zero (a ∷ b ∷ c ∷ d ∷ bs) = ground arith
uint32_at_short (suc i) [] = ground arith
uint32_at_short (suc i) (b ∷ bs) = ground (arith, uint32_at_short i bs)

-- Reading the error code panics exactly on a GO_AWAY frame with four to seven bytes of payload: the
-- guard asks for four bytes, and bytes 4 to 7 are read.
pub get_error_code-panics :
    (f : Frame)
    → (get_error_code f ≡ none)
      ↔ ((f.type ≡ frame_type_go_away) × (4 ≤ payload_len f) × (payload_len f < 8))
unfolding get_error_code
get_error_code-panics f =
    ground (arith, uint32_at_short 4 (bytes_of f.payload), uint32_at_short 0 (bytes_of f.payload))

pub get_window_increment-some : (f : Frame) → get_window_increment f ≢ none
unfolding get_window_increment
get_window_increment-some f = ground (arith, uint32_at_short 0 (bytes_of f.payload))

-- On a frame that `Validate` lets pass no getter panics.
pub validate-getters :
    (f : Frame)
    → validate f ≡ none
    → (get_window_increment f ≢ none) × (get_error_code f ≢ none) × (get_last_stream_id f ≢ none)
unfolding get_window_increment get_last_stream_id
validate-getters f h =
    let v = validate_sound f h in
    let short = uint32_at_short 0 (bytes_of f.payload) in
    (
      ground (arith, short),
      (λ e.
          let (t, _, small) = (get_error_code-panics f).0 e in
          absurd (ground (arith, v.go_away t))),
      ground (arith, short),
    )
