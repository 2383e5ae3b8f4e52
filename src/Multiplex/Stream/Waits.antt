-- ===== src/Multiplex/Stream/Waits.antt =====
-- stream.go: `Write` over its waits for window.
use gki_pass.Base.{
  Bool, List, [], arith, drop, false, inl, inr, length, length-drop, refl, subst, sym, true, ℕ, ◌%◌,
  ◌+◌, ◌-◌, ◌<◌, ◌^◌, ◌∷◌, ◌≡◌, ◌≤◌, ◌⊎◌,
}
use gki_pass.Multiplex.Link.{Link}
use gki_pass.Multiplex.Stream.{Stream}
use gki_pass.Multiplex.Stream.Output.{
  Wake, WriteResult, blocked, cancelled, granted, on_wait, out_of_fuel, stopped, write_failed,
  write_loop, write_stream, write_waits, written,
}
use gki_pass.Multiplex.Stream.Send.{Accounted, count, write_loop-Accounted}

-- What the waits bring in all, and whether one of them ends with the context.
abbrev pub grants : List Wake → ℕ
grants [] = 0
grants (granted k ∷ wakes) = k + grants wakes
grants (stopped ∷ wakes) = grants wakes

abbrev pub has_stop : List Wake → Bool
has_stop [] = false
has_stop (granted k ∷ wakes) = has_stop wakes
has_stop (stopped ∷ wakes) = true

-- What a write comes to over some waits, after `n` bytes, when the window was `w`.
abbrev pub WriteEnd : List Wake → ℕ → ℕ → ℕ → WriteResult → Type 0
WriteEnd wakes n size w (written m) = (m ≡ n + size) × (size ≤ w + grants wakes)
WriteEnd wakes n size w (write_failed e m) = (m ≤ n + size) × (m ≤ n + w + grants wakes)
WriteEnd wakes n size w (cancelled m) =
    (has_stop wakes ≡ true) × (m < n + size) × (m ≤ n + w + grants wakes)
WriteEnd wakes n size w (blocked m) =
    (has_stop wakes ≡ false) × (m < n + size) × (m ≡ n + w + grants wakes)
WriteEnd wakes n size w (out_of_fuel m) = ⊥

abbrev is_blocked : WriteResult → Bool
is_blocked (blocked m) = true
is_blocked (written m) = false
is_blocked (write_failed e m) = false
is_blocked (cancelled m) = false
is_blocked (out_of_fuel m) = false

-- A property of a write that may go on, from its cases.
on_wait-cases :
    (P : Stream × Link × WriteResult → Type 0)
    (go : ℕ → Stream → Link → Stream × Link × WriteResult) (first : Stream × Link × WriteResult)
    → ((m : ℕ) (s : Stream) (l : Link) → first ≡ (s, l, blocked m) → P (go m s l))
    → (is_blocked first.2 ≡ false → P first)
    → P (on_wait go first)
on_wait-cases P go (s, l, blocked m) h k = h m s l refl
on_wait-cases P go (s, l, written m) h k = k refl
on_wait-cases P go (s, l, write_failed e m) h k = k refl
on_wait-cases P go (s, l, cancelled m) h k = k refl
on_wait-cases P go (s, l, out_of_fuel m) h k = k refl

-- A write that does not wait, or has nothing more to wait for.
ended-WriteEnd :
    (wakes : List Wake) (n : ℕ) (bs : List ℕ) (s : Stream) (r : Stream × Link × WriteResult)
    → Accounted n bs s r
    → (wakes ≡ []) ⊎ (is_blocked r.2 ≡ false)
    → WriteEnd wakes n (length bs) s.send_window r.2
ended-WriteEnd wakes n bs s (s', l, written m) (w, e) h = (e, omega (arith, w, e))
ended-WriteEnd wakes n bs s (s', l, write_failed x m) (w, e) h =
    (omega (arith, e), omega (arith, e))
ended-WriteEnd wakes n bs s (s', l, blocked m) (w, e) (inl z) =
    rw z (refl, e.1, omega (arith, w, e.2))
ended-WriteEnd wakes n bs s (s', l, blocked m) (w, e) (inr z) = cc
ended-WriteEnd wakes n bs s (s', l, cancelled m) (w, e) h = elim e [ ]
ended-WriteEnd wakes n bs s (s', l, out_of_fuel m) (w, e) h = elim e [ ]

-- A grant that ends a wait, and what the rest of the write comes to.
granted-WriteEnd :
    (k : ℕ) (wakes : List Wake) (n m size w : ℕ) (r : WriteResult)
    → n ≤ m
    → m < n + size
    → m ≡ n + w
    → WriteEnd wakes m (size - (m - n)) k r
    → WriteEnd (granted k ∷ wakes) n size w r
granted-WriteEnd k wakes n m size w (written i) a b c (e, f) = (omega (arith, e), omega (arith, f))
granted-WriteEnd k wakes n m size w (write_failed x i) a b c (e, f) =
    (omega (arith, e), omega (arith, f))
granted-WriteEnd k wakes n m size w (cancelled i) a b c (s, e, f) =
    (s, omega (arith, e), omega (arith, f))
granted-WriteEnd k wakes n m size w (blocked i) a b c (s, e, f) =
    (s, omega (arith, e), omega (arith, f))
granted-WriteEnd k wakes n m size w (out_of_fuel i) a b c e = e

-- How a write goes on after a grant.
abbrev resume : ℕ → List Wake → ℕ → List ℕ → ℕ → ℕ → Stream → Link → Stream × Link × WriteResult
resume k wakes now bs n m s l =
    write_waits wakes now (drop (m - n) bs) m
      (record s { send_window = (s.send_window + k) % 2 ^ 64 }) l

write_waits-WriteEnd :
    (wakes : List Wake) (now : ℕ) (bs : List ℕ) (n : ℕ) (s : Stream) (l : Link)
    → s.send_window + grants wakes < 2 ^ 63
    → WriteEnd wakes n (length bs) s.send_window (write_waits wakes now bs n s l).2
unfolding write_waits
write_waits-WriteEnd [] now bs n s l h =
    ended-WriteEnd [] n bs s (write_loop 3 now bs n s l)
      (write_loop-Accounted now bs n s l (omega arith)) (inl refl)
write_waits-WriteEnd (granted k ∷ wakes) now bs n s l h =
    let acc = write_loop-Accounted now bs n s l (omega arith) in
    on_wait-cases (λ r. WriteEnd (granted k ∷ wakes) n (length bs) s.send_window r.2)
      (resume k wakes now bs n) (write_loop 3 now bs n s l)
      (λ m s' l' e.
        let (w, (low, more, z)) = subst (Accounted n bs s) e acc in
        let wider = record s' { send_window = (s'.send_window + k) % 2 ^ 64 } in
        let now_k : wider.send_window ≡ k = omega (arith, z) in
        let rest =
          write_waits-WriteEnd wakes now (drop (m - n) bs) m wider l' (omega (arith, now_k)) in
        let left = length-drop (m - n) bs in
        let result = (write_waits wakes now (drop (m - n) bs) m wider l').2 in
        granted-WriteEnd k wakes n m (length bs) s.send_window result low more (omega (arith, w, z))
          (subst (λ i. WriteEnd wakes m i k result) left
            (subst (λ i. WriteEnd wakes m (length (drop (m - n) bs)) i result) now_k rest)))
      (λ e. ended-WriteEnd (granted k ∷ wakes) n bs s (write_loop 3 now bs n s l) acc (inr e))
write_waits-WriteEnd (stopped ∷ wakes) now bs n s l h =
    let acc = write_loop-Accounted now bs n s l (omega arith) in
    on_wait-cases (λ r. WriteEnd (stopped ∷ wakes) n (length bs) s.send_window r.2)
      (λ m s' l'. (s', l', cancelled m)) (write_loop 3 now bs n s l)
      (λ m s' l' e.
        let (w, (low, more, z)) = subst (Accounted n bs s) e acc in (refl, more, omega (arith, w)))
      (λ e. ended-WriteEnd (stopped ∷ wakes) n bs s (write_loop 3 now bs n s l) acc (inr e))

-- The window and what was sent, against the window before and a part of the grants.
abbrev pub Spent : List Wake → ℕ → ℕ → Stream × Link × WriteResult → Type 0
Spent wakes n w r =
    (used : ℕ) × (used ≤ grants wakes) × (r.0.send_window + count r.2 ≡ n + w + used)

write_waits-Spent :
    (wakes : List Wake) (now : ℕ) (bs : List ℕ) (n : ℕ) (s : Stream) (l : Link)
    → s.send_window + grants wakes < 2 ^ 63
    → Spent wakes n s.send_window (write_waits wakes now bs n s l)
unfolding write_waits
write_waits-Spent [] now bs n s l h =
    let acc = write_loop-Accounted now bs n s l (omega arith) in
    (0, omega arith, omega (arith, acc.0))
write_waits-Spent (granted k ∷ wakes) now bs n s l h =
    let acc = write_loop-Accounted now bs n s l (omega arith) in
    on_wait-cases (Spent (granted k ∷ wakes) n s.send_window) (resume k wakes now bs n)
      (write_loop 3 now bs n s l)
      (λ m s' l' e.
        let (w, (low, more, z)) = subst (Accounted n bs s) e acc in
        let wider = record s' { send_window = (s'.send_window + k) % 2 ^ 64 } in
        let now_k : wider.send_window ≡ k = omega (arith, z) in
        let (used, few, total) =
          write_waits-Spent wakes now (drop (m - n) bs) m wider l' (omega (arith, now_k)) in
        (k + used, omega (arith, few), omega (arith, total, now_k, w, z)))
      (λ e. (0, omega arith, omega (arith, acc.0)))
write_waits-Spent (stopped ∷ wakes) now bs n s l h =
    let acc = write_loop-Accounted now bs n s l (omega arith) in
    on_wait-cases (Spent (stopped ∷ wakes) n s.send_window) (λ m s' l'. (s', l', cancelled m))
      (write_loop 3 now bs n s l)
      (λ m s' l' e.
        let (w, ended) = subst (Accounted n bs s) e acc in (0, omega arith, omega (arith, w)))
      (λ e. (0, omega arith, omega (arith, acc.0)))

-- A write on an open stream, over what its waits end with, where the send window is not negative and
-- with all grants stays below 2^63. It never reports more bytes as sent than it was given, nor more
-- than the window and the grants cover. It returns without an error only when all bytes are sent,
-- and with the context's error only if a wait ended with the context. It still waits only if none
-- did and it has sent all that the window and the grants cover, which is fewer bytes than it was
-- given: so it ends once they cover the bytes. The window that is left and the bytes reported as
-- sent make up the window before and the grants that were used.
pub write-accounted :
    (wakes : List Wake) (now : ℕ) (bs : List ℕ) (s : Stream) (l : Link)
    → s.write_closed ≡ false
    → s.send_window + grants wakes < 2 ^ 63
    → WriteEnd wakes 0 (length bs) s.send_window (write_stream wakes now bs s l).2
      × Spent wakes 0 s.send_window (write_stream wakes now bs s l)
unfolding write_stream
write-accounted wakes now bs s l o h =
    let goes : write_stream wakes now bs s l ≡ write_waits wakes now bs 0 s l = ground (arith, o) in
    subst
      (λ (r : Stream × Link × WriteResult).
        WriteEnd wakes 0 (length bs) s.send_window r.2 × Spent wakes 0 s.send_window r)
      (sym goes) (write_waits-WriteEnd wakes now bs 0 s l h, write_waits-Spent wakes now bs 0 s l h)
