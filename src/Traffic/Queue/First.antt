-- ===== src/Traffic/Queue/First.antt =====
-- queue.go: what enters the queue, and what comes out of it first.
use gki_pass.Base.{
  Bool, Bool-cases, List, Option, [], ap, ap₂, arith, false, if◌then◌else◌, inl, inr, leb, length,
  length-append, length-take, not, refl, some, subst, suc, sym, take, true, zero, ℕ, ◌*◌, ◌++◌, ◌+◌,
  ◌-◌, ◌/◌, ◌<◌, ◌==◌, ◌||◌, ◌∙◌, ◌∷◌, ◌≡◌, ◌≢◌, ◌≤◌, ◌⊎◌,
}
use gki_pass.Base.Maps.{nat_eq, string_eq}
use gki_pass.Base.Int.{int_eq}
use gki_pass.Traffic.Queue.{
  Outcome, Packet, PriorityQueue, at, child, cleanup_expired, dequeue_event, down, enqueue,
  enqueue_event, expired_places, has_stats, heap_pop, heap_push, is_expired, less, note, noting,
  push_packet, rank, remove_places, returned, swap, try_dequeue, up,
}
use gki_pass.Traffic.Queue.Order.{IsHeap, IsHeap-top, NotLess, at-swap, length-swap}
use gki_pass.Traffic.Queue.Down.{HeapBelow, child-BestChild, down-Settled}
use gki_pass.Traffic.Queue.Up.{HeapAbove, up-IsHeap}
use gki_pass.Traffic.Queue.Kept.{
  occurrences, occurrences-append, occurrences-down, occurrences-swap, occurrences-take,
  occurrences-up, one_if,
}
use Prim.{tt}

at-append : (ps qs : List Packet) (k : ℕ) → k < length ps → at (ps ++ qs) k ≡ at ps k
at-append [] qs k h = absurd (omega arith)
at-append (p ∷ ps) qs zero h = refl
at-append (p ∷ ps) qs (suc k) h = at-append ps qs k (omega arith)

pub at-take : (n k : ℕ) (ps : List Packet) → k < n → at (take n ps) k ≡ at ps k
at-take zero k ps h = absurd (omega arith)
at-take (suc n) k [] h = refl
at-take (suc n) zero (p ∷ ps) h = refl
at-take (suc n) (suc k) (p ∷ ps) h = at-take n k ps (omega arith)

-- A heap over the whole list.
abbrev pub Whole : List Packet → Type 0
Whole ps = IsHeap (length ps) ps

pub heap_push-Whole :
    (p : Packet) (ps : List Packet)
    → Whole ps
    → Whole (heap_push p ps)
      × (length (heap_push p ps) ≡ length ps + 1)
      × ((test : Packet → Bool)
          → occurrences test (heap_push p ps) ≡ occurrences test ps + one_if (test p))
unfolding heap_push
heap_push-Whole p ps heap =
    let longer = ps ++ (p ∷ []) in
    let grown = length-append ps (p ∷ []) in
    let ordered : HeapAbove (length ps) (length longer) longer = (
      (λ k over inside other.
          let small : k < length ps = omega (arith, grown, other) in
          let at_k = at-append ps (p ∷ []) k small in
          let at_up = at-append ps (p ∷ []) ((k - 1) / 2) (omega arith) in
          let held = heap k over small in ap₂ less at_k at_up ∙ held),
      (λ k big over inside e. absurd (omega (arith, grown, e))),
    ) in
    let (fixed, same) =
      up-IsHeap (length ps + 1) (length ps) (length longer) longer (omega arith)
        (omega (arith, grown)) (omega arith) ordered in
    (
      subst (λ n. IsHeap n (up (length ps + 1) (length ps) longer)) (sym same) fixed,
      omega (arith, same, grown),
      λ test.
          let moved =
            occurrences-up test (length ps + 1) (length ps) longer (omega (arith, grown)) in
          let added = occurrences-append test ps (p ∷ []) in omega (arith, moved, added),
    )

-- The first packet of a heap comes out, and what is left is a heap with the other packets.
abbrev pub Popped : List Packet → List Packet × Packet → Type 0
Popped ps (rest, p) =
    (p ≡ at ps 0)
    × Whole rest
    × (length rest + 1 ≡ length ps)
    × ((test : Packet → Bool) → occurrences test rest + one_if (test p) ≡ occurrences test ps)
    × ((k : ℕ) → k < length ps → NotLess (at ps k) p)

-- `down` leaves what stands behind the places it orders.
pub down-at :
    (rounds i n m : ℕ) (ps : List Packet)
    → n ≤ m
    → m < length ps
    → i < n
    → at (down rounds i n ps).0 m ≡ at ps m
unfolding down
down-at zero i n m ps h inside k = refl
down-at (suc rounds) i n m ps h inside k =
    let j = child i n ps in
    elim (Bool-cases (leb n (2 * i + 1) || not (less (at ps j) (at ps i)))) [
      | inl e ↦ ground arith
      | inr e ↦
          let best = child-BestChild i n ps (ground arith) in
          let same = length-swap i j ps in
          let moved = at-swap i j m ps (omega arith) (omega (arith, best.0)) in
          let rest = down-at rounds j n m (swap i j ps) h (omega (arith, same)) best.0 in
          let not_i : m ≢ i = λ f. absurd (omega (arith, f)) in
          let not_j : m ≢ j = λ f. absurd (omega (arith, f, best.0)) in ground (arith, moved, rest)
    ]

pop_several : (ps : List Packet) → Whole ps → 1 < length ps → Popped ps (heap_pop ps)
unfolding heap_pop
pop_several ps heap several =
    let n = length ps - 1 in
    let swapped = swap 0 n ps in
    let same = length-swap 0 n ps in
    let moved : (k : ℕ)
        → at swapped k ≡ (if k == n then at ps 0 else if k == 0 then at ps n else at ps k) =
      λ k. at-swap 0 n k ps (omega arith) (omega arith) in
    let ordered : HeapBelow 0 n swapped = (
      (λ k over inside other.
          let held = heap k over (omega arith) in
          let at_k = moved k in
          let at_up = moved ((k - 1) / 2) in
          let up_small : (k - 1) / 2 < n = omega arith in ground (arith, held, at_k, at_up)),
      (λ k big over inside e. absurd (omega arith)),
    ) in
    let settled = (down n 0 n swapped).0 in
    let (fixed, kept) = down-Settled n 0 n swapped (omega (arith, same)) (omega arith) ordered in
    let out : at settled n ≡ at ps 0 =
      down-at n 0 n n swapped (omega arith) (omega (arith, same)) (omega arith)
      ∙ ground (arith, moved n) in
    let long : length settled ≡ suc n = omega (arith, kept, same) in
    let short : length (take n settled) ≡ n = omega (arith, length-take n settled, long) in
    (
      out,
      (λ k over inside.
          let small : k < n = omega (arith, short) in
          ap₂ less (at-take n k settled small) (at-take n ((k - 1) / 2) settled (omega arith))
          ∙ fixed k over small),
      omega (arith, short),
      (λ test.
          let split = occurrences-take test n settled long in
          let lower = occurrences-down test n 0 n swapped (omega (arith, same)) (omega arith) in
          let swaps = occurrences-swap test 0 n ps (omega arith) (omega arith) in
          omega (arith, split, lower, swaps)),
      λ k h. subst (NotLess (at ps k)) (sym out) (IsHeap-top (length ps) ps heap k h),
    )

pub heap_pop-Popped : (ps : List Packet) → Whole ps → 0 < length ps → Popped ps (heap_pop ps)
unfolding heap_pop down swap
heap_pop-Popped [] heap some_left = absurd (omega arith)
heap_pop-Popped (p ∷ []) heap some_left = (
  refl,
  (λ k over inside. absurd (omega arith)),
  refl,
  (λ test. omega arith),
  λ k h. IsHeap-top 1 (p ∷ []) heap k h,
)
heap_pop-Popped (p ∷ q ∷ ps) heap some_left = pop_several (p ∷ q ∷ ps) heap (omega arith)

-- No packet has expired.
abbrev pub Live : ℕ → List Packet → Type 0
Live now ps = (k : ℕ) → k < length ps → is_expired (at ps k) now ≡ false

expired_places-none :
    (n now : ℕ) (ps : List Packet) → n ≤ length ps → Live now ps → expired_places n now ps ≡ []
unfolding expired_places
expired_places-none zero now ps h live = refl
expired_places-none (suc n) now ps h live =
    let rest = expired_places-none n now ps (omega arith) live in
    let here = live n h in ground (arith, rest, here)

-- Of higher priority than a packet, or of the same priority and not younger.
abbrev pub GoesFirst : Packet → Packet → Type 0
GoesFirst p q =
    (rank q.priority < rank p.priority)
    ⊎ ((rank q.priority ≡ rank p.priority) × (p.timestamp ≤ q.timestamp))

NotLess-GoesFirst : (p q : Packet) → NotLess q p → GoesFirst p q
unfolding less
NotLess-GoesFirst p q h = ground arith

-- The first packet of the queue's heap, and the rest of the queue.
abbrev pub Dequeued : PriorityQueue → PriorityQueue × Outcome (Option Packet) → Type 0
Dequeued q (later, out) =
    (p : Packet) × (out ≡ returned (some p))
    × ((k : ℕ) → k < length q.queue → GoesFirst p (at q.queue k))
    × Whole later.queue
    × ((test : Packet → Bool)
        → occurrences test later.queue + one_if (test p) ≡ occurrences test q.queue)

cleanup_expired-none :
    (now : ℕ) (q : PriorityQueue) → Live now q.queue → cleanup_expired now q ≡ (q, returned tt)
unfolding cleanup_expired remove_places
cleanup_expired-none now q live =
    ap (λ places. remove_places places q)
      (expired_places-none (length q.queue) now q.queue (omega arith) live)

-- The queue has a counter for the priority of each packet that it holds.
abbrev pub Counted : PriorityQueue → Type 0
Counted q = (k : ℕ) → k < length q.queue → has_stats (at q.queue k).priority q.priority_stats ≡ true

-- From a queue in the order of a heap that is not empty, in which no packet has expired and the
-- priority of each packet has its counters, `TryDequeue` does not panic and takes a packet that is,
-- against each packet of the queue, of higher priority, or of the same priority and not younger;
-- exactly the other packets stay, in the order of a heap.
pub try_dequeue-Dequeued :
    (now : ℕ) (q : PriorityQueue)
    → Whole q.queue
    → 0 < length q.queue
    → Live now q.queue
    → Counted q
    → Dequeued q (try_dequeue now q)
unfolding try_dequeue note noting
try_dequeue-Dequeued now q heap some_left live counted =
    let clean = cleanup_expired-none now q live in
    let (rest, p) = heap_pop q.queue in
    let (top, whole, shorter, kept, first) = heap_pop-Popped q.queue heap some_left in
    let there : has_stats p.priority q.priority_stats ≡ true =
      ap (λ (x : Packet). has_stats x.priority q.priority_stats) top ∙ counted 0 some_left in
    let result : try_dequeue now q
        ≡ ((note dequeue_event p (record q { queue = rest })).0, returned (some p)) =
      ground (arith, clean, there) in
    subst (Dequeued q) (sym result)
      (p, refl, λ k h. NotLess-GoesFirst p (at q.queue k) (first k h), whole, kept)

-- No error, and a heap with one packet more.
abbrev pub Enqueued : Packet → PriorityQueue → PriorityQueue × Outcome Bool → Type 0
Enqueued p q (later, fine) =
    (fine ≡ returned true)
    × Whole later.queue
    × ((test : Packet → Bool)
        → occurrences test later.queue ≡ occurrences test q.queue + one_if (test p))

-- An open queue that is in the order of a heap and not full takes a packet whose priority has its
-- counters in without an error; the queue then has exactly the packets of before and this one, in
-- the order of a heap.
pub enqueue-Enqueued :
    (p : Packet) (q : PriorityQueue)
    → Whole q.queue
    → q.closed ≡ false
    → length q.queue < q.max_size
    → has_stats p.priority q.priority_stats ≡ true
    → Enqueued p q (enqueue p q)
unfolding enqueue push_packet note noting
enqueue-Enqueued p q heap open_still room there =
    let (whole, longer, added) = heap_push-Whole p q.queue heap in
    let later = record q { queue = heap_push p q.queue } in
    let result : enqueue p q ≡ ((note enqueue_event p later).0, returned true) =
      ground (arith, there) in
    subst (Enqueued p q) (sym result) (refl, whole, added)
