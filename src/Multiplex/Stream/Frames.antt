-- ===== src/Multiplex/Stream/Frames.antt =====
-- stream.go: `handleFrame` over all frame types.
use gki_pass.Base.{
  Bool, Bool-cases, Option-cases, arith, false, inl, inr, none, subst, sym, true, ℕ, ℕ_discrete,
  ◌==◌, ◌∙◌, ◌≡◌, ◌≢◌, ◌⊎◌,
}
use gki_pass.Base.Maps.{nat_eq, string_eq}
use gki_pass.Base.Int.{int_eq}
use gki_pass.Multiplex.Frame.{
  Frame, frame_type_stream_close, frame_type_stream_reset, get_error_code, get_window_increment,
  payload_len,
}
use gki_pass.Multiplex.Frame.Valid.{get_error_code-panics, get_window_increment-some}
use gki_pass.Multiplex.Stream.{
  Reply, Stream, done, failed, force_close, handle_data_frame, handle_stream_close_frame,
  handle_stream_frame, handle_stream_reset_frame, handle_window_update_frame, panic,
  update_activity,
}
use gki_pass.Multiplex.Stream.Receive.{
  IsStream, close_read-some, data-frame, force_close-IsStream, force_close-none, read_side_closed,
  read_side_closed-IsStream,
}

update_activity-IsStream : (now : ℕ) (s : Stream) → IsStream s → IsStream (update_activity now s)
update_activity-IsStream now s v = record {
  ring = v.ring;
  slots = v.slots;
  credit_bounded = v.credit_bounded;
  window_small = v.window_small;
  channel = v.channel;
}

-- The reply is no panic, and leaves the books in order.
abbrev pub Fine : Reply Stream → Type 0
Fine (done s) = IsStream s
Fine (failed e s) = IsStream s
Fine panic = ⊥

data-Fine :
    (f : Frame) (s : Stream) → IsStream s → f.length ≡ payload_len f → Fine (handle_data_frame f s)
data-Fine f s v e = elim (data-frame f s v e) [
  | inl (_, (s', r, v', _, _, _)) ↦ rw r v'
  | inr (_, (x, r)) ↦ rw r v
]

window_update-Fine : (f : Frame) (s : Stream) → IsStream s → Fine (handle_window_update_frame f s)
unfolding handle_window_update_frame
window_update-Fine f s v = elim (Option-cases (get_window_increment f)) [
  | inl e ↦ absurd (get_window_increment-some f e)
  | inr (n, e) ↦ elim (Bool-cases (n == 0)) [
    | inl z ↦ rw (e, handle_window_update_frame, z) v
    | inr z ↦
        rw (e, handle_window_update_frame, z)
          (record {
            ring = v.ring;
            slots = v.slots;
            credit_bounded = v.credit_bounded;
            window_small = v.window_small;
            channel = v.channel;
          })
  ]
]

close-Fine : (s : Stream) → IsStream s → Fine (handle_stream_close_frame s)
unfolding handle_stream_close_frame
close-Fine s v = rw (close_read-some s v) (read_side_closed-IsStream s v)

-- A reset of a stream whose read side is still open closes it.
reset-Fine :
    (f : Frame) (s : Stream)
    → IsStream s
    → f.type ≡ frame_type_stream_reset
    → s.read_closed ≡ false
    → Fine (handle_stream_reset_frame f s)
unfolding handle_stream_reset_frame
reset-Fine f s v t shut = elim (Option-cases (get_error_code f)) [
  | inl e ↦ absurd (ground (arith, (get_error_code-panics f).0 e))
  | inr (code, e) ↦ elim (Option-cases (force_close s)) [
    | inl p ↦ absurd (ground (arith, (force_close-none s).0 p, v.channel))
    | inr (s', p) ↦ rw (e, handle_stream_reset_frame, p) (force_close-IsStream s s' v p)
  ]
]

reset-panics :
    (f : Frame) (s : Stream)
    → IsStream s
    → s.read_closed ≡ true
    → handle_stream_reset_frame f s ≡ panic
unfolding handle_stream_reset_frame
reset-panics f s v shut =
    let twice : force_close s ≡ none = (force_close-none s).1 (v.channel ∙ shut) in
    elim (Option-cases (get_error_code f)) [
      | inl e ↦ ground (arith, e)
      | inr (code, e) ↦ ground (arith, e, twice)
    ]

Fine-no_panic : (r : Reply Stream) → Fine r → r ≢ panic
Fine-no_panic (done s) h e = cc
Fine-no_panic (failed x s) h e = cc
Fine-no_panic panic h e = h

dispatch {ℓ} :
    (P : Reply Stream → Type ℓ) (now : ℕ) (f : Frame) (s : Stream)
    → P (handle_data_frame f (update_activity now s))
    → P (handle_window_update_frame f (update_activity now s))
    → P (handle_stream_close_frame (update_activity now s))
    → (f.type ≡ frame_type_stream_reset → P (handle_stream_reset_frame f (update_activity now s)))
    → P (done (update_activity now s))
    → P (handle_stream_frame now f s)
unfolding handle_stream_frame
dispatch P now f s d w c r other = ground arith

dispatch-reset :
    (now : ℕ) (f : Frame) (s : Stream)
    → f.type ≡ frame_type_stream_reset
    → handle_stream_frame now f s ≡ handle_stream_reset_frame f (update_activity now s)
unfolding handle_stream_frame
dispatch-reset now f s t = ground arith

-- The panic alone, and the books.
pub handle_stream_frame-Fine :
    (now : ℕ) (f : Frame) (s : Stream)
    → IsStream s
    → f.length ≡ payload_len f
    → ((f.type ≡ frame_type_stream_reset)
        × (s.read_closed ≡ true)
        × (handle_stream_frame now f s ≡ panic))
      ⊎ ((¬ ((f.type ≡ frame_type_stream_reset) × (s.read_closed ≡ true)))
          × Fine (handle_stream_frame now f s))
handle_stream_frame-Fine now f s v e =
    let s' = update_activity now s in
    let v' = update_activity-IsStream now s v in
    let fine : (f.type ≡ frame_type_stream_reset → s.read_closed ≡ false)
        → Fine (handle_stream_frame now f s) =
      λ h.
        dispatch Fine now f s (data-Fine f s' v' e) (window_update-Fine f s' v') (close-Fine s' v')
          (λ t. reset-Fine f s' v' t (h t)) v' in
    elim (ℕ_discrete f.type 6) [
      | yes t ↦ elim (Bool-cases s.read_closed) [
        | inl shut ↦ inl (t, shut, dispatch-reset now f s t ∙ reset-panics f s' v' shut)
        | inr shut ↦ inr ((λ h. cc), fine (λ _. shut))
      ]
      | no t ↦ inr ((λ h. t h.0), fine (λ h. absurd (t h)))
    ]

dispatch-close :
    (now : ℕ) (f : Frame) (s : Stream)
    → f.type ≡ frame_type_stream_close
    → handle_stream_frame now f s ≡ handle_stream_close_frame (update_activity now s)
unfolding handle_stream_frame
dispatch-close now f s t = ground arith

-- A stream with its books in order whose read side is closed, and whose write side is as told.
abbrev pub ReadClosed : Bool → Reply Stream → Type 0
ReadClosed write_closed r =
    (s : Stream) × (r ≡ done s)
    × IsStream s
    × (s.read_closed ≡ true)
    × (s.write_closed ≡ write_closed)

close-ReadClosed :
    (s : Stream) → IsStream s → ReadClosed s.write_closed (handle_stream_close_frame s)
unfolding handle_stream_close_frame
close-ReadClosed s v =
    let some_ = close_read-some s v in
    (
      read_side_closed s,
      ground (arith, some_),
      read_side_closed-IsStream s v,
      ground arith,
      ground arith,
    )

reset-ReadClosed :
    (f : Frame) (s : Stream)
    → IsStream s
    → f.type ≡ frame_type_stream_reset
    → s.read_closed ≡ false
    → ReadClosed true (handle_stream_reset_frame f s)
unfolding handle_stream_reset_frame force_close
reset-ReadClosed f s v t shut = elim (Option-cases (get_error_code f)) [
  | inl e ↦ absurd (ground (arith, (get_error_code-panics f).0 e))
  | inr (code, e) ↦ elim (Option-cases (force_close s)) [
    | inl p ↦ absurd (ground (arith, (force_close-none s).0 p, v.channel))
    | inr (s', p) ↦ (
      s',
      ground (arith, e, p),
      force_close-IsStream s s' v p,
      ground (arith, p),
      ground (arith, p),
    )
  ]
]

-- What a frame comes to: a reset panics when the read side is closed already, and closes both sides
-- otherwise; a close frame closes the read side; any other keeps the books.
abbrev pub FrameEnd : Frame → Stream → Reply Stream → Type 0
FrameEnd f s r =
    ((f.type ≡ frame_type_stream_reset) × (s.read_closed ≡ true) × (r ≡ panic))
    ⊎ ((f.type ≡ frame_type_stream_reset) × (s.read_closed ≡ false) × ReadClosed true r)
    ⊎ ((f.type ≡ frame_type_stream_close) × ReadClosed s.write_closed r)
    ⊎ ((f.type ≢ frame_type_stream_reset) × (f.type ≢ frame_type_stream_close) × Fine r)

-- On a stream whose books are in order, a frame whose length is that of its payload makes the
-- program panic exactly if it is a reset and the read side is closed already. Any other reset closes
-- both sides, and a close frame the read side, which leaves the write side as it was; both return
-- without an error. Every frame that does not panic leaves the books in order.
pub stream-frame :
    (now : ℕ) (f : Frame) (s : Stream)
    → IsStream s
    → f.length ≡ payload_len f
    → FrameEnd f s (handle_stream_frame now f s)
stream-frame now f s v e =
    let s' = update_activity now s in
    let v' = update_activity-IsStream now s v in
    elim (handle_stream_frame-Fine now f s v e) [
      | inl panics ↦ inl panics
      | inr (no_panic, fine) ↦ elim (ℕ_discrete f.type 6) [
        | yes t ↦ elim (Bool-cases s.read_closed) [
          | inl shut ↦ absurd (no_panic (t, shut))
          | inr shut ↦ inr (
              inl (
                t,
                shut,
                subst (ReadClosed true) (sym (dispatch-reset now f s t))
                    (reset-ReadClosed f s' v' t shut),
              ))
        ]
        | no not_reset ↦ elim (ℕ_discrete f.type frame_type_stream_close) [
          | yes t ↦ inr (
              inr (
                inl (
                  t,
                  subst (ReadClosed s.write_closed) (sym (dispatch-close now f s t))
                      (close-ReadClosed s' v'),
                )))
          | no not_close ↦ inr (inr (inr (not_reset, not_close, fine)))
        ]
      ]
    ]
