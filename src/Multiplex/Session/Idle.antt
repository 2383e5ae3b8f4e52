-- ===== src/Multiplex/Session/Idle.antt =====
-- session.go: `cleanupIdleStreams`.
-- Whether a stream under this id was idle for longer than the timeout.
use gki_pass.Base.{
  Bool, List, Option, Option-cases, [], arith, dec_lt, false, if◌then◌else◌, inl, inr, ltb, none,
  refl, some, ℕ, ◌&&◌, ◌+◌, ◌<◌, ◌==◌, ◌||◌, ◌∷◌, ◌≡◌,
}
use gki_pass.Base.Maps.{delete, lookup, lookup-delete, nat_eq, string_eq}
use gki_pass.Multiplex.Frame.{new_stream_reset_frame}
use gki_pass.Multiplex.Link.{Link, SendError, write_frame}
use gki_pass.Multiplex.Stream.{Stream, force_close}
use gki_pass.Multiplex.Stream.Output.{reset_stream}
use gki_pass.Multiplex.Stream.Receive.{force_close-none}
use gki_pass.Multiplex.Session.{Session}
use gki_pass.Multiplex.Session.Handlers.{cleanup_idle_streams, count_64, error_code_cancel, sweep}

unfoldable pub has_idle : ℕ → ℕ → ℕ → List (ℕ × Stream) → Bool
has_idle now timeout id [] = false
has_idle now timeout id ((j, s) ∷ rest) =
    (j == id && ltb (s.last_activity + timeout) now) || has_idle now timeout id rest

-- The close channels of the idle streams are open.
abbrev pub IdleOpen : ℕ → ℕ → List (ℕ × Stream) → Type 0
IdleOpen now timeout [] = Unit
IdleOpen now timeout ((id, s) ∷ rest) =
    (s.last_activity + timeout < now → s.close_notify ≡ false) × IdleOpen now timeout rest

reset_stream-some :
    (code : ℕ) (s : Stream) (l : Link)
    → s.close_notify ≡ false
    → (r : Stream × Link × Option SendError) × (reset_stream code s l ≡ some r)
unfolding reset_stream
reset_stream-some code s l o =
    elim (Option-cases (write_frame (new_stream_reset_frame s.id code) l).1) [
      | inl e ↦ elim (Option-cases (force_close s)) [
        | inl f ↦ absurd (ground (arith, (force_close-none s).0 f))
        | inr (s', f) ↦
            ((s', (write_frame (new_stream_reset_frame s.id code) l).0, none), ground (arith, e, f))
      ]
      | inr (x, e) ↦
          ((s, (write_frame (new_stream_reset_frame s.id code) l).0, some x), ground (arith, e))
    ]

sweep-idle :
    (now : ℕ) (pairs : List (ℕ × Stream)) (s : Session)
    → IdleOpen now s.config.stream_idle_timeout pairs
    → (s' : Session) × (sweep now pairs s ≡ some s')
      × (s'.config ≡ s.config)
      × ((id : ℕ)
          → lookup id s'.streams ≡ (
              if has_idle now s.config.stream_idle_timeout id pairs
              then none
              else lookup id s.streams))
unfolding sweep has_idle
sweep-idle now [] s h = (s, refl, refl, λ id. refl)
sweep-idle now ((id, t) ∷ rest) s h =
    elim (dec_lt (t.last_activity + s.config.stream_idle_timeout) now) [
      | no p ↦
          let (s', e, c, k) = sweep-idle now rest s h.1 in
          (s', ground (arith, e), c, λ j. ground (arith, k j))
      | yes p ↦
          let ((t', l, x), r) = reset_stream-some error_code_cancel t s.link (h.0 p) in
          let s1 = record s {
            link = l;
            streams = delete id s.streams;
            streams_closed = count_64 s.streams_closed;
          } in
          let (s', e, c, k) = sweep-idle now rest s1 h.1 in
          (s', ground (arith, r, e), c, λ j. ground (arith, k j, lookup-delete id j s.streams))
    ]

-- If no idle stream of the table has its read side closed, the sweep ends: it takes the idle
-- streams out of the table, and the streams under all other ids stay as they are.
pub cleanup-idle :
    (now : ℕ) (s : Session)
    → IdleOpen now s.config.stream_idle_timeout s.streams
    → (s' : Session) × (cleanup_idle_streams now s ≡ some s')
      × ((id : ℕ)
          → lookup id s'.streams ≡ (
              if has_idle now s.config.stream_idle_timeout id s.streams
              then none
              else lookup id s.streams))
unfolding cleanup_idle_streams
cleanup-idle now s h = let (s', e, _, k) = sweep-idle now s.streams s h in (s', e, k)
