-- ===== src/Multiplex/Session/Close.antt =====
-- session.go: `CloseWithError`.
use gki_pass.Base.{
  List, Option, Option-cases, [], arith, false, inl, inr, none, refl, some, true, ℕ, ◌∷◌, ◌≡◌, ◌⊎◌,
}
use gki_pass.Multiplex.Frame.{Frame}
use gki_pass.Multiplex.Link.{session_closed, write_frame}
use gki_pass.Multiplex.Stream.{Stream, force_close}
use gki_pass.Multiplex.Stream.Receive.{force_close-none}
use gki_pass.Multiplex.Session.{Session, close_streams, close_with_error, closing, emptied}
use mathlib.Core.Option

-- A stream whose close channel is closed already: to close it once more is a panic.

abbrev pub AllOpen : List (ℕ × Stream) → Type 0
AllOpen [] = Unit
AllOpen ((id, s) ∷ rest) = (s.close_notify ≡ false) × AllOpen rest

close_streams-cases :
    (streams : List (ℕ × Stream))
    → (AllOpen streams × (close_streams streams ≡ some tt))
      ⊎ ((¬ AllOpen streams) × (close_streams streams ≡ none))
unfolding close_streams
close_streams-cases [] = inl (tt, refl)
close_streams-cases ((id, s) ∷ rest) = elim (Option-cases (force_close s)) [
  | inl e ↦ inr ((λ h. absurd (ground (arith, (force_close-none s).0 e, h.0))), ground (arith, e))
  | inr (s', e) ↦
      let open_now : s.close_notify ≡ false = ground (arith, e, (force_close-none s).1) in
      elim (close_streams-cases rest) [
        | inl (h, r) ↦ inl ((open_now, h), ground (arith, e, r))
        | inr (h, r) ↦ inr ((λ k. h k.1), ground (arith, e, r))
      ]
]

closed-result :
    (code : ℕ) (s : Session) (r : Option (Unit {0}))
    → s.link.closed ≡ false
    → close_streams s.streams ≡ r
    → close_with_error code s ≡ Option.map (λ _. emptied (closing code s)) r
unfolding close_with_error write_frame
closed-result code s r o e = simp (o, e) refl

pub close_with_error-again :
    (code : ℕ) (s : Session) → s.link.closed ≡ true → close_with_error code s ≡ some s
unfolding close_with_error
close_with_error-again code s o = ground arith

-- Closing an open session panics if the close channel of some stream is closed already, and
-- otherwise leaves it without streams and with its configuration. The flag is set first, so the GO_AWAY frame is never
-- written: the bytes on the connection are those from before, and no frame is sent afterwards.
pub close_with_error-silent :
    (code : ℕ) (s : Session)
    → s.link.closed ≡ false
    → ((¬ AllOpen s.streams) × (close_with_error code s ≡ none))
      ⊎ (AllOpen s.streams
          × ((s' : Session) × (close_with_error code s ≡ some s')
              × (s'.streams ≡ [])
              × (s'.config ≡ s.config)
              × (s'.link ≡ record s.link { closed = true })
              × ((f : Frame) → write_frame f s'.link ≡ (s'.link, some session_closed))))
unfolding close_with_error write_frame
close_with_error-silent code s o = elim (close_streams-cases s.streams) [
  | inl (open_all, e) ↦ inr (
    open_all,
    (emptied (closing code s), closed-result code s (some tt) o e, refl, refl, refl, λ f. refl),
  )
  | inr (shut, e) ↦ inl (shut, closed-result code s none o e)
]
