-- ===== src/Multiplex/Stream/Send.antt =====
-- stream.go: `Write` against the send window, from one wait to the next.
use gki_pass.Base.{
  List, Option-cases, [], ap, arith, dec_lt, drop, false, inl, inr, length, length-drop,
  length-take, min, none, refl, some, suc, take, true, ℕ, ◌+◌, ◌-◌, ◌<◌, ◌^◌, ◌∷◌, ◌≡◌, ◌≢◌, ◌≤◌,
  ◌⊎◌,
}
use gki_pass.Base.Maps.{nat_eq, string_eq}
use gki_pass.Base.Int.{int_eq}
use gki_pass.Multiplex.Link.{Link, SendError, write_frame}
use gki_pass.Multiplex.Frame.{new_data_frame}
use gki_pass.Multiplex.Stream.{Stream, send_failed}
use gki_pass.Multiplex.Stream.Output.{
  WriteResult, blocked, cancelled, out_of_fuel, send_chunk, window_open, write_failed, write_loop,
  written,
}

-- How many bytes a write reports as sent.
abbrev pub count : WriteResult → ℕ
count (written n) = n
count (write_failed e n) = n
count (blocked n) = n
count (cancelled n) = n
count (out_of_fuel n) = n

-- A round that ends the write: nothing is left, or the window is used up.
last_round :
    (fuel now : ℕ) (bs : List ℕ) (n : ℕ) (s : Stream) (l : Link)
    → (bs ≡ []) ⊎ ((bs ≢ []) × (s.send_window ≡ 0))
    → write_loop (suc fuel) now bs n s l ≡ (s, l, elim bs [ [] ↦ written n | _ ∷ _ ↦ blocked n ])
unfolding write_loop
last_round fuel now [] n s l h = refl
last_round fuel now (b ∷ bs) n s l (inl e) = cc
last_round fuel now (b ∷ bs) n s l (inr (_, z)) = ground arith

-- One chunk: the window falls by it, or nothing changes.
chunk_cases :
    (now : ℕ) (chunk : List ℕ) (s : Stream) (l : Link)
    → let (s', l', e) = send_chunk now chunk s l in
      ((e ≡ none) × (s'.send_window ≡ s.send_window - length chunk))
      ⊎ ((x : SendError) × (e ≡ some x) × (s' ≡ s))
unfolding send_chunk
chunk_cases now chunk s l =
    elim (Option-cases (write_frame (new_data_frame s.id (some chunk) false) l).1) [
      | inl e ↦ inl (ground (arith, e), ground (arith, e))
      | inr (x, e) ↦ inr (x, ground (arith, e), ground (arith, e))
    ]

-- The first round, with bytes to send and an open window.
first_sent :
    (fuel now b : ℕ) (bs : List ℕ) (n : ℕ) (s : Stream) (l : Link)
    → window_open s ≡ true
    → let size = min (length (b ∷ bs)) s.send_window in
      let r = send_chunk now (take size (b ∷ bs)) s l in
      r.2 ≡ none
      → write_loop (suc fuel) now (b ∷ bs) n s l
        ≡ write_loop fuel now (drop size (b ∷ bs)) (n + size) r.0 r.1
unfolding write_loop
first_sent fuel now b bs n s l h e = rw (h, e) refl

first_failed :
    (fuel now b : ℕ) (bs : List ℕ) (n : ℕ) (s : Stream) (l : Link) (x : SendError)
    → window_open s ≡ true
    → let size = min (length (b ∷ bs)) s.send_window in
      let r = send_chunk now (take size (b ∷ bs)) s l in
      r.2 ≡ some x
      → write_loop (suc fuel) now (b ∷ bs) n s l ≡ (r.0, r.1, write_failed (send_failed x) n)
unfolding write_loop
first_failed fuel now b bs n s l x h e = rw (h, e) refl

-- How a write of `bs`, after `n` bytes, may end or wait: it ends with every byte sent, or with a
-- failed send before any byte counts, and waits with the window used up before all bytes are sent.
abbrev pub Ended : ℕ → List ℕ → Stream → WriteResult → Type 0
Ended n bs s (written m) = m ≡ n + length bs
Ended n bs s (blocked m) = (n ≤ m) × (m < n + length bs) × (s.send_window ≡ 0)
Ended n bs s (write_failed e m) = m ≡ n
Ended n bs s (cancelled m) = ⊥
Ended n bs s (out_of_fuel m) = ⊥

abbrev pub Accounted : ℕ → List ℕ → Stream → Stream × Link × WriteResult → Type 0
Accounted n bs s r = (r.0.send_window + count r.2 ≡ s.send_window + n) × Ended n bs r.0 r.2

after_first :
    (now b : ℕ) (bs : List ℕ) (n k : ℕ) (s s' : Stream) (l : Link)
    → k ≡ min (length (b ∷ bs)) s.send_window
    → s'.send_window ≡ s.send_window - k
    → (rest : List ℕ) → length rest ≡ length (b ∷ bs) - k
    → Accounted n (b ∷ bs) s (write_loop 2 now rest (n + k) s' l)
after_first now b bs n k s s' l m e [] h =
    rw (last_round 1 now [] (n + k) s' l (inl refl)) (omega (arith, e), omega arith)
after_first now b bs n k s s' l m e (x ∷ xs) h =
    rw (last_round 1 now (x ∷ xs) (n + k) s' l (inr ((λ q. cc), omega (arith, e))))
      (omega (arith, e), (omega arith, omega arith, omega (arith, e)))

pub write_loop-Accounted :
    (now : ℕ) (bs : List ℕ) (n : ℕ) (s : Stream) (l : Link)
    → s.send_window < 2 ^ 63
    → Accounted n bs s (write_loop 3 now bs n s l)
write_loop-Accounted now [] n s l h =
    rw (last_round 2 now [] n s l (inl refl)) (omega arith, omega arith)
write_loop-Accounted now (b ∷ bs) n s l h = elim (dec_lt 0 s.send_window) [
  | no p ↦
      rw (last_round 2 now (b ∷ bs) n s l (inr ((λ q. cc), omega arith)))
        (omega arith, (omega arith, omega arith, omega arith))
  | yes p ↦
      let size = min (length (b ∷ bs)) s.send_window in
      let r = send_chunk now (take size (b ∷ bs)) s l in
      let open_now : window_open s ≡ true = ground arith in
      elim (chunk_cases now (take size (b ∷ bs)) s l) [
        | inl (e, w) ↦ rw (first_sent 2 now b bs n s l open_now e) (
            after_first now b bs n size s r.0 r.1 (omega arith)
              (omega (arith, w, length-take size (b ∷ bs))) (drop size (b ∷ bs))
              (omega (arith, length-drop size (b ∷ bs))))
        | inr (x, e, same) ↦
            rw (first_failed 2 now b bs n s l x open_now e)
              (omega (arith, ap (λ t. t.send_window) same), refl)
      ]
]
