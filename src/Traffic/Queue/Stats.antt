-- ===== src/Traffic/Queue/Stats.antt =====
-- queue.go: the counters of the priorities, and the calls that panic for want of one.
use Prim.{tt}
use gki_pass.Base.{
  Bool, Bool-cases, Option-cases, List, arith, ap, true, false, inl, inr, leb, length, ltb, none,
  not, some, sym, subst, ℕ, ◌+◌, ◌<◌, ◌==◌, ◌≡◌, refl, ◌∙◌, [], ◌∷◌,
}
use gki_pass.Base.Maps.{insert, lookup, lookup-insert, nat_eq, string_eq}
use gki_pass.Traffic.Queue.{
  Event, Outcome, Packet, PriorityQueue, PriorityStats, count, drop_event, enqueue, enqueue_event,
  has_stats, heap_remove, heap_push, last_below, note, noting, panicked, push_packet, returned,
  try_drop_low_priority, remove_places, expire_event, cleanup_expired, try_dequeue, heap_pop,
  dequeue_event, expired_places,
}
use gki_pass.Traffic.Queue.Kept.{occurrences, one_if}
use gki_pass.Traffic.Queue.First.{heap_pop-Popped, heap_push-Whole, Whole}
use gki_pass.Traffic.Queue.Remove.{heap_remove-Removed}
use gki_pass.Traffic.Queue.Sound.{
  IsSound, Falling, Falling-weaken, expired_places-Falling, last_below-lt, remove_places-IsSound,
}

-- Not one of the four priorities.
abbrev pub unknown : Packet → Bool
unknown p = not (ltb p.priority 4)

-- The four priorities have counters, and no others, and no packet of the queue has another priority.
abbrev pub Known : PriorityQueue → Type 0
Known q = ((k : ℕ) → has_stats k q.priority_stats ≡ ltb k 4) × (occurrences unknown q.queue ≡ 0)

has_stats-insert :
    (k j : ℕ) (s : PriorityStats) (stats : List (ℕ × PriorityStats))
    → has_stats k stats ≡ true
    → has_stats j (insert k s stats) ≡ has_stats j stats
unfolding has_stats
has_stats-insert k j s stats h =
    let there = lookup-insert k j s stats in
    elim (Bool-cases (k == j)) [
      | inl e ↦
          let same : k ≡ j = ground (arith, e) in
          let h2 : has_stats j stats ≡ true = ap (λ i. has_stats i stats) (sym same) ∙ h in
          ground (arith, there, e, h2)
      | inr e ↦ ground (arith, there, e)
    ]

-- Counting keeps the counters, and finds the one of a packet exactly if its priority is known.
pub note-Known :
    (e : Event) (p : Packet) (q : PriorityQueue)
    → Known q
    → Known (note e p q).0 × ((note e p q).1 ≡ ltb p.priority 4)
unfolding note has_stats
note-Known e p q (stats, none_unknown) = ((kept, none_unknown), stats p.priority)
  where
    kept : (k : ℕ) → has_stats k (note e p q).0.priority_stats ≡ ltb k 4
    kept k = elim (Option-cases (lookup p.priority q.priority_stats)) [
      | inl f ↦ let old = stats k in ground (arith, f, old)
      | inr (s, f) ↦
          let there : has_stats p.priority q.priority_stats ≡ true = ground (arith, f) in
          let new = has_stats-insert p.priority k (count e s) q.priority_stats there in
          let old = stats k in ground (arith, f, new, old)
    ]

-- A call that returns, and leaves only known priorities.
abbrev pub Returns : {A : Type 0} → PriorityQueue × Outcome A → Type 0
Returns {A} (q, r) = Known q × ((a : A) × (r ≡ returned a))

noting-Known :
    {A : Type 0} (e : Event) (p : Packet) (q : PriorityQueue) (a : A)
    → Known q
    → ltb p.priority 4 ≡ true
    → Known (noting e p q a).0 × ((noting e p q a).1 ≡ returned a)
unfolding noting
noting-Known e p q a known h =
    let (kept, found) = note-Known e p q known in (kept, ground (arith, found, h))

noting-unknown :
    {A : Type 0} (e : Event) (p : Packet) (q : PriorityQueue) (a : A)
    → ((k : ℕ) → has_stats k q.priority_stats ≡ ltb k 4)
    → ltb p.priority 4 ≡ false
    → (noting e p q a).1 ≡ panicked
unfolding noting note
noting-unknown e p q a stats h = let found = stats p.priority in ground (arith, found, h)

-- A packet that is one of a queue of known priorities.
one-known :
    (p : Packet) (rest ps : ℕ)
    → rest + one_if (unknown p) ≡ ps
    → ps ≡ 0
    → (rest ≡ 0) × (ltb p.priority 4 ≡ true)
one-known p rest ps h z = elim (Bool-cases (ltb p.priority 4)) [
  | inl e ↦ (ground (arith, h, z, e), e)
  | inr e ↦ absurd (ground (arith, h, z, e))
]

push_packet-Known :
    (p : Packet) (q : PriorityQueue)
    → Whole q.queue
    → Known q
    → ltb p.priority 4 ≡ true
    → Returns (push_packet p q)
unfolding push_packet
push_packet-Known p q heap (stats, none_unknown) h =
    let (whole, longer, added) = heap_push-Whole p q.queue heap in
    let grown = added unknown in
    let (kept, back) =
      noting-Known enqueue_event p (record q { queue = heap_push p q.queue }) true
        (stats, ground (arith, grown, none_unknown, h)) h in
    (kept, (true, back))

push_packet-unknown :
    (p : Packet) (q : PriorityQueue)
    → Known q
    → ltb p.priority 4 ≡ false
    → (push_packet p q).1 ≡ panicked
unfolding push_packet
push_packet-unknown p q known h =
    noting-unknown enqueue_event p (record q { queue = heap_push p q.queue }) true known.0 h

-- The queue without one of its packets, which is counted.
taken-Known :
    (e : Event) (i : ℕ) (q : PriorityQueue)
    → Whole q.queue
    → Known q
    → i < length q.queue
    → let (rest, p) = heap_remove i q.queue in
      let r = note e p (record q { queue = rest }) in Known r.0 × (r.1 ≡ true)
taken-Known e i q heap (stats, none_unknown) inside =
    let (rest, p) = heap_remove i q.queue in
    let (same, whole, shorter, kept) = heap_remove-Removed i q.queue heap inside in
    let (less_, known) =
      one-known p (occurrences unknown rest) (occurrences unknown q.queue) (kept unknown)
        none_unknown in
    let (later, found) = note-Known e p (record q { queue = rest }) (stats, less_) in
    (later, found ∙ known)

-- What making room comes to on an open queue: the packet is pushed, or dropped.
open_enqueue :
    (P : PriorityQueue × Outcome Bool → Type 0) (p : Packet) (q : PriorityQueue)
    → Whole q.queue
    → Known q
    → q.closed ≡ false
    → ((roomy : PriorityQueue) → Whole roomy.queue → Known roomy → P (push_packet p roomy))
    → P (noting drop_event p q false)
    → P (enqueue p q)
unfolding enqueue try_drop_low_priority noting note
open_enqueue P p q heap known open_still push drop =
    elim (Bool-cases (leb q.max_size (length q.queue))) [
      | inr f ↦
          let goes : enqueue p q ≡ push_packet p q = ground arith in
          subst P (sym goes) (push q heap known)
      | inl f ↦ elim (Option-cases (last_below (length q.queue) p.priority q.queue)) [
        | inl g ↦
            let goes : enqueue p q ≡ noting drop_event p q false = ground arith in
            subst P (sym goes) drop
        | inr (i, g) ↦
            let inside = last_below-lt (length q.queue) p.priority q.queue i g in
            let (rest, out) = heap_remove i q.queue in
            let (same, whole, shorter, kept) = heap_remove-Removed i q.queue heap inside in
            let (roomy_known, there) = taken-Known drop_event i q heap known inside in
            let roomy = (note drop_event out (record q { queue = rest })).0 in
            let goes : enqueue p q ≡ push_packet p roomy = ground arith in
            subst P (sym goes) (push roomy whole roomy_known)
      ]
    ]

-- A packet of a known priority never makes `Enqueue` panic.
pub enqueue-Returns :
    (p : Packet) (q : PriorityQueue)
    → Whole q.queue
    → Known q
    → ltb p.priority 4 ≡ true
    → Returns (enqueue p q)
unfolding enqueue
enqueue-Returns p q heap known h = elim (Bool-cases q.closed) [
  | inl e ↦
      let goes : enqueue p q ≡ (q, returned false) = ground arith in
      subst Returns (sym goes) (known, (false, refl))
  | inr e ↦
      open_enqueue Returns p q heap known e
        (λ roomy whole fine. push_packet-Known p roomy whole fine h)
        (let (kept, back) = noting-Known drop_event p q false known h in (kept, (false, back)))
]

-- A packet of another priority makes `Enqueue` of an open queue panic.
pub enqueue-panicked :
    (p : Packet) (q : PriorityQueue)
    → Whole q.queue
    → Known q
    → q.closed ≡ false
    → ltb p.priority 4 ≡ false
    → (enqueue p q).1 ≡ panicked
enqueue-panicked p q heap known open_still h =
    open_enqueue (λ r. r.1 ≡ panicked) p q heap known open_still
      (λ roomy whole fine. push_packet-unknown p roomy fine h)
      (noting-unknown drop_event p q false known.0 h)

remove_places-Returns :
    (places : List ℕ) (q : PriorityQueue)
    → Whole q.queue
    → Known q
    → Falling (length q.queue) places
    → Returns (remove_places places q)
unfolding remove_places note
remove_places-Returns [] q heap known f = (known, (tt, refl))
remove_places-Returns (i ∷ places) q heap known (inside, f) =
    let (rest, out) = heap_remove i q.queue in
    let (same, whole, shorter, kept) = heap_remove-Removed i q.queue heap inside in
    let noted = (note expire_event out (record q { queue = rest })).0 in
    let (fine, there) = taken-Known expire_event i q heap known inside in
    let goes : remove_places (i ∷ places) q ≡ remove_places places noted = ground (arith, there) in
    subst Returns (sym goes) (
      remove_places-Returns places noted whole fine
        (Falling-weaken i (length rest) places (omega (arith, shorter)) f))

-- `TryDequeue` of known priorities never panics.
pub try_dequeue-Returns :
    (now : ℕ) (q : PriorityQueue) → IsSound q → Known q → Returns (try_dequeue now q)
unfolding try_dequeue cleanup_expired
try_dequeue-Returns now q sound known =
    let places = expired_places (length q.queue) now q.queue in
    let falling = expired_places-Falling (length q.queue) now q.queue in
    let clean = (cleanup_expired now q).0 in
    let (kept, (done, back)) = remove_places-Returns places q sound.0 known falling in
    let whole = (remove_places-IsSound places q sound falling).0 in
    elim (Bool-cases (length clean.queue == 0)) [
      | inl e ↦
          let goes : try_dequeue now q ≡ (clean, returned none) = ground (arith, back, e) in
          subst Returns (sym goes) (kept, (none, refl))
      | inr e ↦
          let (rest, p) = heap_pop clean.queue in
          let (top, left, shorter, others, first) =
            heap_pop-Popped clean.queue whole (ground (arith, e)) in
          let (less_, h) =
            one-known p (occurrences unknown rest) (occurrences unknown clean.queue)
              (others unknown) kept.1 in
          let left_over = record clean { queue = rest } in
          let goes : try_dequeue now q ≡ noting dequeue_event p left_over (some p) =
            ground (arith, back, e) in
          let (later, answer) = noting-Known dequeue_event p left_over (some p) (kept.0, less_) h in
          subst Returns (sym goes) (later, (some p, answer))
    ]
