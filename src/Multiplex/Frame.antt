-- ===== src/Multiplex/Frame.antt =====
-- client/internal/multiplex/frame.go: frames, what they carry, and their form on the wire.
-- A `uint8` is a number below 256 and a `uint32` one below 2^32; `FrameType` is its byte. A slice
-- is `none` where Go has nil, and its capacity is its length, as `make` and `ReadFrom` leave it.
-- The names of types and error codes, which only log lines print, are left out.
pub mod Wire
pub mod Trips
pub mod Parse
pub mod Valid
pub mod Messages
mod Tests
use gki_pass.Base.{
  Bool, List, Option, [], bit_or, get_or, if◌then◌else◌, length, ltb, none, not, some, suc, zero, ℕ,
  ◌%◌, ◌&&◌, ◌*◌, ◌++◌, ◌/◌, ◌==◌, ◌^◌, ◌||◌, ◌∷◌,
}
use gki_pass.Base.Words.{put_uint32, uint32}

abbrev pub frame_type_data : ℕ
frame_type_data = 0x00

abbrev pub frame_type_window_update : ℕ
frame_type_window_update = 0x01

abbrev pub frame_type_stream_close : ℕ
frame_type_stream_close = 0x02

abbrev pub frame_type_ping : ℕ
frame_type_ping = 0x03

abbrev pub frame_type_pong : ℕ
frame_type_pong = 0x04

abbrev pub frame_type_go_away : ℕ
frame_type_go_away = 0x05

abbrev pub frame_type_stream_reset : ℕ
frame_type_stream_reset = 0x06

abbrev pub frame_type_settings : ℕ
frame_type_settings = 0x07

abbrev pub frame_type_stream_open : ℕ
frame_type_stream_open = 0x08

abbrev pub flag_end_stream : ℕ
flag_end_stream = 0x01

abbrev pub flag_ack : ℕ
flag_ack = 0x10

abbrev pub frame_header_length : ℕ
frame_header_length = 10

abbrev pub max_frame_length : ℕ
max_frame_length = 1024 * 1024

abbrev pub max_stream_id : ℕ
max_stream_id = 0x7FFF_FFFF

pub record Frame : Type 0 where
  pub type : ℕ
  pub flags : ℕ
  pub stream_id : ℕ
  pub length : ℕ
  pub payload : Option (List ℕ)

-- The bytes of a slice; nil has none.
abbrev pub bytes_of : Option (List ℕ) → List ℕ
bytes_of none = []
bytes_of (some bs) = bs

-- `len(f.Payload)`
abbrev pub payload_len : Frame → ℕ
payload_len f = length (bytes_of f.payload)

unfoldable pub new_frame : ℕ → ℕ → Option (List ℕ) → Frame
new_frame type stream_id payload = record {
  type = type;
  flags = 0;
  stream_id = stream_id;
  length = length (bytes_of payload) % 2 ^ 32;
  payload = payload;
}

-- `frame.Flags |= flag`
abbrev pub with_flag : ℕ → Frame → Frame
with_flag flag f = record f { flags = bit_or f.flags flag }

unfoldable pub new_data_frame : ℕ → Option (List ℕ) → Bool → Frame
unfolding new_frame
new_data_frame stream_id contents end_stream =
    let f = new_frame frame_type_data stream_id contents in
    if end_stream then with_flag flag_end_stream f else f

unfoldable pub new_window_update_frame : ℕ → ℕ → Frame
unfolding new_frame put_uint32
new_window_update_frame stream_id increment =
    new_frame frame_type_window_update stream_id (some (put_uint32 increment))

unfoldable pub new_stream_close_frame : ℕ → Frame
unfolding new_frame
new_stream_close_frame stream_id =
    with_flag flag_end_stream (new_frame frame_type_stream_close stream_id none)

unfoldable pub new_stream_reset_frame : ℕ → ℕ → Frame
unfolding new_frame put_uint32
new_stream_reset_frame stream_id error_code =
    new_frame frame_type_stream_reset stream_id (some (put_uint32 error_code))

unfoldable pub new_ping_frame : Option (List ℕ) → Bool → Frame
unfolding new_frame
new_ping_frame contents ack =
    let f = new_frame frame_type_ping 0 contents in if ack then with_flag flag_ack f else f

unfoldable pub new_pong_frame : Option (List ℕ) → Frame
unfolding new_frame
new_pong_frame contents = with_flag flag_ack (new_frame frame_type_pong 0 contents)

unfoldable pub new_go_away_frame : ℕ → ℕ → Option (List ℕ) → Frame
unfolding new_frame put_uint32
new_go_away_frame last_stream_id error_code debug_data =
    new_frame frame_type_go_away 0
      (some (put_uint32 last_stream_id ++ (put_uint32 error_code ++ bytes_of debug_data)))

unfoldable pub new_stream_open_frame : ℕ → ℕ → Frame
unfolding new_frame
new_stream_open_frame stream_id priority =
    new_frame frame_type_stream_open stream_id (some (priority ∷ []))

-- `f.Flags & FlagEndStream != 0`: bit 0 of the flags.
unfoldable pub is_end_stream : Frame → Bool
is_end_stream f = f.flags % 2 == 1

-- `f.Flags & FlagAck != 0`: bit 4 of the flags.
unfoldable pub is_ack : Frame → Bool
is_ack f = f.flags / 16 % 2 == 1

-- `binary.BigEndian.Uint32` of the slice from a position on; `none` is the panic of a slice that
-- is too short.
unfoldable pub uint32_at : ℕ → List ℕ → Option ℕ
unfolding uint32
uint32_at zero (a ∷ b ∷ c ∷ d ∷ _) = some (uint32 a b c d)
uint32_at zero _ = none
uint32_at (suc i) [] = none
uint32_at (suc i) (_ ∷ bs) = uint32_at i bs

-- The getters; `none` is a panic.
unfoldable pub get_window_increment : Frame → Option ℕ
unfolding uint32_at
get_window_increment f =
    if not (f.type == frame_type_window_update) || ltb (payload_len f) 4
    then some 0
    else uint32_at 0 (bytes_of f.payload)

unfoldable pub get_error_code : Frame → Option ℕ
unfolding uint32_at
get_error_code f =
    if not (f.type == frame_type_stream_reset) && not (f.type == frame_type_go_away)
      || ltb (payload_len f) 4
    then some 0
    else if f.type == frame_type_go_away
    then uint32_at 4 (bytes_of f.payload)
    else uint32_at 0 (bytes_of f.payload)

unfoldable pub get_last_stream_id : Frame → Option ℕ
unfolding uint32_at
get_last_stream_id f =
    if not (f.type == frame_type_go_away) || ltb (payload_len f) 4
    then some 0
    else uint32_at 0 (bytes_of f.payload)

unfoldable pub get_priority : Frame → ℕ
get_priority f =
    if not (f.type == frame_type_stream_open) || ltb (payload_len f) 1
    then 0
    else get_or (bytes_of f.payload) 0 0

-- What `Validate` can find.
pub data Invalid : Type 0 where
  bad_stream_id length_mismatch window_update_size zero_increment stream_reset_size : Invalid
  go_away_size go_away_stream_id ping_stream_id settings_stream_id : Invalid

-- `Validate`: `none` is a frame without fault. A window update of the right size has its four
-- bytes, so that the getter's panic, which the first case of `elim` stands for, does not happen.
unfoldable pub validate : Frame → Option Invalid
validate f =
    if ltb max_stream_id f.stream_id
    then some bad_stream_id
    else if not (f.length == payload_len f % 2 ^ 32)
    then some length_mismatch
    else if f.type == frame_type_window_update
    then (if not (f.length == 4) then some window_update_size else elim (get_window_increment f) [
      | none ↦ none
      | some increment ↦ if increment == 0 then some zero_increment else none
    ])
    else if f.type == frame_type_stream_reset
    then (if not (f.length == 4) then some stream_reset_size else none)
    else if f.type == frame_type_go_away
    then (if ltb f.length 8
        then some go_away_size
        else if not (f.stream_id == 0)
        then some go_away_stream_id
        else none)
    else if f.type == frame_type_ping || f.type == frame_type_pong
    then (if not (f.stream_id == 0) then some ping_stream_id else none)
    else if f.type == frame_type_settings
    then (if not (f.stream_id == 0) then some settings_stream_id else none)
    else none
