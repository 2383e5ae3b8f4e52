-- ===== src/Multiplex/Stream/Starvation.antt =====
-- stream.go: two consequences for the receiving side that the code does not intend.
use gki_pass.Base.{
  List, Option-cases, [], ap, arith, inl, inr, length, length-take, refl, some, true, ℕ, ◌*◌, ◌++◌,
  ◌+◌, ◌∙◌, ◌∷◌, ◌≡◌, ◌≤◌,
}
use gki_pass.Multiplex.Ring.{read_ring}
use gki_pass.Multiplex.Ring.Queue.{contents}
use gki_pass.Multiplex.Ring.Refine.{length-contents}
use gki_pass.Multiplex.Link.{Link}
use gki_pass.Multiplex.Frame.{Frame, bytes_of, is_end_stream, payload_len}
use gki_pass.Multiplex.Stream.{
  ReadResult, Reply, Stream, buffer_empty, bytes, close_read, done, end_of_data, eof, failed,
  handle_data_frame, panic, read_failed, read_stream, update_recv_window, waits,
}
use gki_pass.Multiplex.Stream.Receive.{HasRoom, IsStream, data-frame}
use gki_pass.Multiplex.Stream.Credit.{Outcome, read-closed, read-stream}

-- What happens on the receiving side: a data frame arrives, or the application reads.
pub data Action : Type 0 where
  arrives : Frame → Action
  reads : ℕ → ℕ → Action

-- The stream, the link, and how many bytes of data were accepted so far.
pub record Receiver : Type 0 where
  pub stream : Stream
  pub link : Link
  pub accepted : ℕ

arrived : Frame → Receiver → Reply Stream → Receiver
arrived f r (done s) = record r { stream = s; accepted = r.accepted + f.length }
arrived f r (failed e s) = record r { stream = s }
arrived f r panic = r

unfoldable pub act : Action → Receiver → Receiver
unfolding arrived
act (arrives f) r = arrived f r (handle_data_frame f r.stream)
act (reads now n) r =
    let (s, l, _) = read_stream now n r.stream r.link in record r { stream = s; link = l }

unfoldable pub act_all : List Action → Receiver → Receiver
unfolding act
act_all [] r = r
act_all (a ∷ rest) r = act_all rest (act a r)

-- Every frame that arrives has the length of its payload.
abbrev pub Lengths : List Action → Type 0
Lengths [] = Unit {0}
Lengths (arrives f ∷ rest) = (f.length ≡ payload_len f) × Lengths rest
Lengths (reads now n ∷ rest) = Lengths rest

record Tally (total top : ℕ) (r : Receiver) : Type 0 where
  sound : IsStream r.stream
  top_window : r.stream.max_recv_window ≡ top
  balance : r.accepted + r.stream.recv_window ≡ total

data-max :
    (f : Frame) (s s' : Stream)
    → handle_data_frame f s ≡ done s'
    → s'.max_recv_window ≡ s.max_recv_window
unfolding handle_data_frame end_of_data close_read
data-max f s s' h = ground arith

read-max :
    (now n : ℕ) (s : Stream) (l : Link)
    → (read_stream now n s l).0.max_recv_window ≡ s.max_recv_window
unfolding read_stream update_recv_window
read-max now n s l = elim (Option-cases (read_ring n s.read_buf).1) [
  | inl e ↦ ground (arith, e)
  | inr (bs, e) ↦ by_bytes bs e
]
  where
    by_bytes :
        (bs : List ℕ)
        → (read_ring n s.read_buf).1 ≡ some bs
        → (read_stream now n s l).0.max_recv_window ≡ s.max_recv_window
    by_bytes [] e = ground (arith, e)
    by_bytes (b ∷ bs) e = ground (arith, e)

arrives-Tally :
    (total top : ℕ) (f : Frame) (r : Receiver)
    → f.length ≡ payload_len f
    → Tally total top r
    → Tally total top (act (arrives f) r)
unfolding act
arrives-Tally total top f r e t = elim (data-frame f r.stream t.sound e) [
  | inl (_, (s', d, v, _, w, _)) ↦
      rw (d, arrived)
        (record {
          sound = v;
          top_window = data-max f r.stream s' d ∙ t.top_window;
          balance = omega (arith, w, t.balance);
        })
  | inr (_, (x, d)) ↦
      rw (d, arrived) (record { sound = t.sound; top_window = t.top_window; balance = t.balance })
]

no_credit :
    (n : ℕ) (s s' : Stream) (r : ReadResult)
    → IsStream s
    → 64 * 1024 ≤ s.max_recv_window
    → Outcome n s s' r
    → s'.recv_window ≡ s.recv_window
no_credit n s s' (bytes bs) v h (_, _, e, _, inl same) = same
no_credit n s s' (bytes bs) v h (_, _, e, _, inr (over, _)) = absurd (
    omega (
      arith,
      ap (length {A = ℕ}) e,
      length-take n (contents s.read_buf),
      length-contents s.read_buf,
      v.ring.size_fits,
      v.slots,
    ))
no_credit n s s' (read_failed eof) v h (_, same) = ap (λ t. t.recv_window) same
no_credit n s s' (read_failed buffer_empty) v h (_, _, same) = ap (λ t. t.recv_window) same
no_credit n s s' (read_failed _) v h o = absurd o
no_credit n s s' waits v h (_, _, _, _, same) = same

reads-Tally :
    (total top now n : ℕ) (r : Receiver)
    → 64 * 1024 ≤ top
    → Tally total top r
    → Tally total top (act (reads now n) r)
unfolding act
reads-Tally total top now n r h t =
    let (v, o) = read-stream now n r.stream r.link t.sound in
    let same =
      no_credit n r.stream (read_stream now n r.stream r.link).0
        (read_stream now n r.stream r.link).2 t.sound (omega (arith, t.top_window)) o in
    record {
      sound = v;
      top_window = read-max now n r.stream r.link ∙ t.top_window;
      balance = omega (arith, same, t.balance);
    }

act_all-Tally :
    (total top : ℕ) (rest : List Action) (r : Receiver)
    → Lengths rest
    → 64 * 1024 ≤ top
    → Tally total top r
    → Tally total top (act_all rest r)
unfolding act_all
act_all-Tally total top [] r l h t = t
act_all-Tally total top (arrives f ∷ rest) r l h t =
    act_all-Tally total top rest (act (arrives f) r) l.1 h (arrives-Tally total top f r l.0 t)
act_all-Tally total top (reads now n ∷ rest) r l h t =
    act_all-Tally total top rest (act (reads now n) r) l h (reads-Tally total top now n r h t)

-- With a window of 64 KB, the default, or more, no read ever gives credit back, since the buffer of
-- 32 KB never holds more than half of the window: over any sequence of arriving data frames, whose
-- lengths are those of their payloads, and of reads, the bytes accepted and the window left add up
-- to the same number. So a stream accepts no more data in all than its first window.
pub act_all-starves :
    (rest : List Action) (r : Receiver)
    → Lengths rest
    → IsStream r.stream
    → 64 * 1024 ≤ r.stream.max_recv_window
    → (act_all rest r).accepted + (act_all rest r).stream.recv_window
      ≡ r.accepted + r.stream.recv_window
act_all-starves rest r l v h =
    (act_all-Tally (r.accepted + r.stream.recv_window) r.stream.max_recv_window rest r l h
      (record { sound = v; top_window = refl; balance = refl })).balance

-- A data frame with the end-of-stream flag that is accepted closes the read side at once: its bytes
-- wait in the buffer, and every read from then on reports the end of the file instead.
pub end_of_stream-loses :
    (f : Frame) (s : Stream)
    → IsStream s
    → f.length ≡ payload_len f
    → HasRoom f s
    → is_end_stream f ≡ true
    → (s' : Stream) × (handle_data_frame f s ≡ done s')
      × (contents s'.read_buf ≡ contents s.read_buf ++ bytes_of f.payload)
      × ((now n : ℕ) (l : Link) → read_stream now n s' l ≡ (s', l, read_failed eof))
end_of_stream-loses f s v e room last = elim (data-frame f s v e) [
  | inl (_, (s', d, _, held, _, shut)) ↦
      (s', d, held, λ now n l. read-closed now n s' l (ground (arith, shut, last)))
  | inr (full, _) ↦ absurd (full room)
]
