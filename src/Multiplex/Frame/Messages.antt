-- ===== src/Multiplex/Frame/Messages.antt =====
-- frame.go: each constructor makes a frame that `Validate` lets pass and that carries its arguments.
use gki_pass.Base.{
  Bool, List, Option, ap, arith, false, length, none, some, true, ℕ, ◌++◌, ◌+◌, ◌<◌, ◌^◌, ◌≡◌, ◌≤◌,
}
use gki_pass.Base.Words.{put_uint32, uint32-put}
use gki_pass.Multiplex.Frame.{
  bytes_of, get_error_code, get_last_stream_id, get_priority, get_window_increment, is_ack,
  is_end_stream, max_stream_id, new_data_frame, new_go_away_frame, new_ping_frame, new_pong_frame,
  new_stream_close_frame, new_stream_open_frame, new_stream_reset_frame, new_window_update_frame,
  uint32_at, validate,
}

uint32_at-put : (n : ℕ) (rest : List ℕ) → n < 2 ^ 32 → uint32_at 0 (put_uint32 n ++ rest) ≡ some n
unfolding uint32_at put_uint32
uint32_at-put n rest h = ap some (uint32-put n h)

uint32_at-put_second :
    (m n : ℕ) (rest : List ℕ)
    → n < 2 ^ 32
    → uint32_at 4 (put_uint32 m ++ (put_uint32 n ++ rest)) ≡ some n
unfolding uint32_at put_uint32
uint32_at-put_second m n rest h = ap some (uint32-put n h)

length-put : (n : ℕ) (rest : List ℕ) → length (put_uint32 n ++ rest) ≡ 4 + length rest
unfolding put_uint32
length-put n rest = omega arith

window_update-carries :
    (id n : ℕ)
    → id ≤ max_stream_id
    → 0 < n
    → n < 2 ^ 32
    → (validate (new_window_update_frame id n) ≡ none)
      × (get_window_increment (new_window_update_frame id n) ≡ some n)
unfolding validate get_window_increment new_window_update_frame
window_update-carries id n h p q = ground (arith, uint32-put n q)

stream_reset-carries :
    (id code : ℕ)
    → id ≤ max_stream_id
    → code < 2 ^ 32
    → (validate (new_stream_reset_frame id code) ≡ none)
      × (get_error_code (new_stream_reset_frame id code) ≡ some code)
unfolding validate get_error_code new_stream_reset_frame
stream_reset-carries id code h p = ground (arith, uint32-put code p)

go_away-carries :
    (last code : ℕ) (debug : Option (List ℕ))
    → last < 2 ^ 32
    → code < 2 ^ 32
    → length (bytes_of debug) + 8 < 2 ^ 32
    → let f = new_go_away_frame last code debug in
      (validate f ≡ none) × (get_last_stream_id f ≡ some last) × (get_error_code f ≡ some code)
unfolding validate get_last_stream_id get_error_code new_go_away_frame
go_away-carries last code debug h p q = ground (arith, uint32-put last h, uint32-put code p)

data-carries :
    (id : ℕ) (contents : Option (List ℕ)) (end_stream : Bool)
    → id ≤ max_stream_id
    → let f = new_data_frame id contents end_stream in
      (validate f ≡ none) × (f.payload ≡ contents) × (is_end_stream f ≡ end_stream)
unfolding validate is_end_stream new_data_frame
data-carries id contents true h = ground arith
data-carries id contents false h = ground arith

stream_open-carries :
    (id priority : ℕ)
    → id ≤ max_stream_id
    → let f = new_stream_open_frame id priority in (validate f ≡ none) × (get_priority f ≡ priority)
unfolding validate get_priority new_stream_open_frame
stream_open-carries id priority h = ground arith

stream_close-carries :
    (id : ℕ)
    → id ≤ max_stream_id
    → (validate (new_stream_close_frame id) ≡ none)
      × (is_end_stream (new_stream_close_frame id) ≡ true)
unfolding validate is_end_stream new_stream_close_frame
stream_close-carries id h = ground arith

ping-carries :
    (contents : Option (List ℕ)) (ack : Bool)
    → (validate (new_ping_frame contents ack) ≡ none)
      × (is_ack (new_ping_frame contents ack) ≡ ack)
      × (validate (new_pong_frame contents) ≡ none)
      × (is_ack (new_pong_frame contents) ≡ true)
unfolding validate is_ack new_ping_frame new_pong_frame
ping-carries contents true = ground arith
ping-carries contents false = ground arith

-- The flow-control and shutdown messages: with legal stream ids and words as arguments, the frames
-- of a window update, a reset and a GO_AWAY pass `Validate`, and the getters read back the
-- increment, the error codes and the last stream id.
pub control-carries :
    (id increment code last : ℕ) (debug : Option (List ℕ))
    → id ≤ max_stream_id
    → 0 < increment
    → increment < 2 ^ 32
    → code < 2 ^ 32
    → last < 2 ^ 32
    → length (bytes_of debug) + 8 < 2 ^ 32
    → let w = new_window_update_frame id increment in
      let r = new_stream_reset_frame id code in
      let g = new_go_away_frame last code debug in
      ((validate w ≡ none) × (get_window_increment w ≡ some increment))
      × ((validate r ≡ none) × (get_error_code r ≡ some code))
      × ((validate g ≡ none) × (get_last_stream_id g ≡ some last) × (get_error_code g ≡ some code))
control-carries id increment code last debug h p q c l d = (
  window_update-carries id increment h p q,
  stream_reset-carries id code h c,
  go_away-carries last code debug l c d,
)

-- The messages of a stream's life: with a legal stream id, the frames that open a stream, carry
-- data and close a stream, and pings and pongs with any payload, pass `Validate`; the priority,
-- the payload and the end-of-stream and acknowledge flags are read back.
pub stream-carries :
    (id priority : ℕ) (contents : Option (List ℕ)) (flag : Bool)
    → id ≤ max_stream_id
    → let o = new_stream_open_frame id priority in
      let f = new_data_frame id contents flag in
      let c = new_stream_close_frame id in
      let p = new_ping_frame contents flag in
      let q = new_pong_frame contents in
      ((validate o ≡ none) × (get_priority o ≡ priority))
      × ((validate f ≡ none) × (f.payload ≡ contents) × (is_end_stream f ≡ flag))
      × ((validate c ≡ none) × (is_end_stream c ≡ true))
      × ((validate p ≡ none) × (is_ack p ≡ flag) × (validate q ≡ none) × (is_ack q ≡ true))
stream-carries id priority contents flag h = (
  stream_open-carries id priority h,
  data-carries id contents flag h,
  stream_close-carries id h,
  ping-carries contents flag,
)
