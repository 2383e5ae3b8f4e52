-- ===== src/Multiplex/Stream/Credit.antt =====
-- stream.go: what a read hands out, and what becomes of the receive window.
use gki_pass.Base.{
  Bool-cases, List, Option-cases, [], ap, arith, dec_lt, drop, false, inl, inr, length, ltb,
  nil_of_length, none, refl, some, sym, take, true, ℕ, ℕ_discrete, ◌%◌, ◌+◌, ◌/◌, ◌<◌, ◌^◌, ◌∙◌,
  ◌∷◌, ◌≡◌, ◌≢◌, ◌≤◌, ◌⊎◌,
}
use gki_pass.Multiplex.Ring.{RingBuffer, read_ring}
use gki_pass.Multiplex.Ring.Queue.{IsRing, contents}
use gki_pass.Multiplex.Ring.Refine.{length-contents, read-contents, read-size}
use gki_pass.Multiplex.Link.{Link, write_frame}
use gki_pass.Multiplex.Frame.{new_window_update_frame}
use gki_pass.Multiplex.Stream.{
  ReadResult, Stream, buffer_empty, bytes, eof, read_failed, read_stream, update_recv_window, waits,
}
use gki_pass.Multiplex.Stream.Receive.{IsStream}

-- The window after the update that a read may send.
window_after :
    (n : ℕ) (s : Stream) (l : Link)
    → s.recv_window + n < 2 ^ 63
    → let s' = (update_recv_window n s l).0 in
      (s' ≡ s) ⊎ ((s.max_recv_window / 2 < n) × (s' ≡ record s { recv_window = s.recv_window + n }))
unfolding update_recv_window
window_after n s l h = elim (dec_lt (s.max_recv_window / 2) n) [
  | no p ↦ inl (ground arith)
  | yes p ↦
      let over : ltb (s.max_recv_window / 2) n ≡ true = ground arith in
      let sent = write_frame (new_window_update_frame s.id (n % 2 ^ 32)) l in
      elim (Option-cases sent.1) [
        | inl e ↦ inr (p, rw over (ground (arith, e)))
        | inr (x, e) ↦ inl (rw over (ground (arith, e)))
      ]
]

-- What a read takes out of the buffer, before the window is looked at.
abbrev read_out : ℕ → ℕ → Stream → Stream
read_out now n s = record s {
  read_buf = (read_ring n s.read_buf).0;
  bytes_read = (s.bytes_read + length (take n (contents s.read_buf))) % 2 ^ 64;
  last_activity = now;
}

read-bytes :
    (now n : ℕ) (s : Stream) (l : Link) (b : ℕ) (bs : List ℕ)
    → s.read_closed ≡ false
    → (read_ring n s.read_buf).1 ≡ some (b ∷ bs)
    → take n (contents s.read_buf) ≡ b ∷ bs
    → let r = update_recv_window (length (b ∷ bs)) (read_out now n s) l in
      read_stream now n s l ≡ (r.0, r.1, bytes (b ∷ bs))
unfolding read_stream
read-bytes now n s l b bs shut e f = ground arith

read-nothing :
    (now n : ℕ) (s : Stream) (l : Link)
    → s.read_closed ≡ false
    → (read_ring n s.read_buf).1 ≡ none
    → read_stream now n s l ≡ (s, l, read_failed buffer_empty)
unfolding read_stream
read-nothing now n s l shut e = ground arith

read-empty_slice :
    (now n : ℕ) (s : Stream) (l : Link)
    → s.read_closed ≡ false
    → (read_ring n s.read_buf).1 ≡ some []
    → read_stream now n s l ≡ (record s { read_buf = (read_ring n s.read_buf).0 }, l, waits)
unfolding read_stream
read-empty_slice now n s l shut e = ground arith

pub read-closed :
    (now n : ℕ) (s : Stream) (l : Link)
    → s.read_closed ≡ true
    → read_stream now n s l ≡ (s, l, read_failed eof)
unfolding read_stream
read-closed now n s l shut = ground arith

-- The bytes that a read consumed: the window is the same, or it grew by them and they were more
-- than half of the largest window.
abbrev pub Credited : ℕ → Stream → Stream → Type 0
Credited n s s' =
    (s'.recv_window ≡ s.recv_window)
    ⊎ ((s.max_recv_window / 2 < n) × (s'.recv_window ≡ s.recv_window + n))

-- The outcomes of a read of up to `n` bytes.
abbrev pub Outcome : ℕ → Stream → Stream → ReadResult → Type 0
Outcome n s s' (bytes bs) =
    (s.read_closed ≡ false)
    × (bs ≢ [])
    × (bs ≡ take n (contents s.read_buf))
    × (contents s'.read_buf ≡ drop n (contents s.read_buf))
    × Credited (length bs) s s'
Outcome n s s' (read_failed eof) = (s.read_closed ≡ true) × (s' ≡ s)
Outcome n s s' (read_failed buffer_empty) =
    (s.read_closed ≡ false) × (contents s.read_buf ≡ []) × (s' ≡ s)
Outcome n s s' (read_failed _) = ⊥
Outcome n s s' waits =
    (s.read_closed ≡ false)
    × (n ≡ 0)
    × (contents s.read_buf ≢ [])
    × (contents s'.read_buf ≡ contents s.read_buf)
    × (s'.recv_window ≡ s.recv_window)

read_out-IsStream :
    (now n : ℕ) (s : Stream) (bs : List ℕ)
    → IsStream s
    → (read_ring n s.read_buf).1 ≡ some bs
    → IsStream (read_out now n s)
      × (s.recv_window + length bs + (read_ring n s.read_buf).0.size ≤ s.max_recv_window)
read_out-IsStream now n s bs v e =
    let (ring, same, _) = read-contents n s.read_buf v.ring in
    let (left, _) = read-size n s.read_buf bs v.ring e in
    (
      record {
        ring = ring;
        slots = ap length same ∙ v.slots;
        credit_bounded = omega (arith, left);
        window_small = v.window_small;
        channel = v.channel;
      },
      omega (arith, left),
    )

update_recv_window-IsStream :
    (k : ℕ) (t : Stream) (l : Link)
    → IsStream t
    → t.recv_window + k + t.read_buf.size ≤ t.max_recv_window
    → let t' = (update_recv_window k t l).0 in
      IsStream t' × (t'.read_buf ≡ t.read_buf) × Credited k t t'
update_recv_window-IsStream k t l v h = elim (window_after k t l (omega arith)) [
  | inl e ↦ rw e (v, refl, inl refl)
  | inr (p, e) ↦ rw e (
    record {
      ring = v.ring;
      slots = v.slots;
      credit_bounded = h;
      window_small = v.window_small;
      channel = v.channel;
    },
    refl,
    inr (p, refl),
  )
]

read-none :
    (now n : ℕ) (s : Stream) (l : Link)
    → IsStream s
    → s.read_closed ≡ false
    → (read_ring n s.read_buf).1 ≡ none
    → let r = read_stream now n s l in IsStream r.0 × Outcome n s r.0 r.2
read-none now n s l v shut e = elim ((read-contents n s.read_buf v.ring).2) [
  | inl (empty, _, _) ↦ rw (read-nothing now n s l shut e) (v, (shut, empty, refl))
  | inr (_, got, _) ↦ absurd (ground (arith, got, e))
]

no_bytes-zero :
    (n : ℕ) (rb : RingBuffer) → IsRing rb → (read_ring n rb).1 ≡ some [] → contents rb ≢ [] → n ≡ 0
no_bytes-zero n rb v e some_left = elim (ℕ_discrete rb.size 0) [
  | yes z ↦ absurd (some_left (nil_of_length (contents rb) (length-contents rb ∙ z)))
  | no p ↦ omega (arith, (read-size n rb [] v e).1)
]

read-any :
    (now n : ℕ) (s : Stream) (l : Link) (bs : List ℕ)
    → IsStream s
    → s.read_closed ≡ false
    → (read_ring n s.read_buf).1 ≡ some bs
    → let r = read_stream now n s l in IsStream r.0 × Outcome n s r.0 r.2
read-any now n s l [] v shut e = elim ((read-contents n s.read_buf v.ring).2) [
  | inl (_, none_got, _) ↦ absurd (ground (arith, none_got, e))
  | inr (some_left, got, kept) ↦
      let z = no_bytes-zero n s.read_buf v.ring e some_left in
      let (w, _) = read_out-IsStream now n s [] v e in
      let same : contents (read_ring n s.read_buf).0 ≡ contents s.read_buf =
        kept ∙ ap (λ k. drop k (contents s.read_buf)) z in
      rw (read-empty_slice now n s l shut e) (
        record {
          ring = w.ring;
          slots = w.slots;
          credit_bounded = w.credit_bounded;
          window_small = w.window_small;
          channel = w.channel;
        },
        (shut, z, some_left, same, refl),
      )
]
read-any now n s l (b ∷ bs) v shut e = elim ((read-contents n s.read_buf v.ring).2) [
  | inl (_, none_got, _) ↦ absurd (ground (arith, none_got, e))
  | inr (some_left, got, kept) ↦
      let taken : take n (contents s.read_buf) ≡ b ∷ bs = ground (arith, got, e) in
      let (v', h) = read_out-IsStream now n s (b ∷ bs) v e in
      let (v'', same, credit) =
        update_recv_window-IsStream (length (b ∷ bs)) (read_out now n s) l v' h in
      rw (read-bytes now n s l b bs shut e taken)
        (v'', (shut, (λ q. cc), sym taken, ap contents same ∙ kept, credit))
]

-- A read on a stream whose books are in order keeps them so. With the read side closed it is the
-- end of the file, whatever waits in the buffer; with an empty buffer it fails at once, and nothing
-- changes; a read of no bytes waits; any other hands out the first bytes, as many as asked for or
-- as there are, and keeps the rest, and the window grows by them only if they were more than half
-- of the largest window.
pub read-stream :
    (now n : ℕ) (s : Stream) (l : Link)
    → IsStream s
    → let r = read_stream now n s l in IsStream r.0 × Outcome n s r.0 r.2
read-stream now n s l v = elim (Bool-cases s.read_closed) [
  | inl shut ↦ rw (read-closed now n s l shut) (v, (shut, refl))
  | inr shut ↦ elim (Option-cases (read_ring n s.read_buf).1) [
    | inl e ↦ read-none now n s l v shut e
    | inr (bs, e) ↦ read-any now n s l bs v shut e
  ]
]
