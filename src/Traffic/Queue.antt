-- ===== src/Traffic/Queue.antt =====
-- client/internal/traffic/queue.go: the queue of packets by priority, with the functions of
-- container/heap that it calls. The index of an item, which nothing reads, the metadata of a packet,
-- the condition that wakes a waiting `Dequeue` and the table of queues are left out. A limit that is
-- negative acts as 0, counters are bit patterns of 64 bits, and the clock is an argument. A call that
-- panics leaves what it changed before, since its lock is released.
pub mod Order
pub mod Down
pub mod Up
pub mod Kept
pub mod First
pub mod Remove
pub mod Sound
pub mod Stats
pub mod Calls
pub mod Tests
use Prim.{tt}
use gki_pass.Base.{
  Bool, List, Option, String, [], false, get_or, if◌then◌else◌, leb, length, ltb, none, not, set,
  some, suc, take, true, zero, ℕ, ◌%◌, ◌&&◌, ◌*◌, ◌++◌, ◌+◌, ◌-◌, ◌/◌, ◌==◌, ◌^◌, ◌||◌, ◌∷◌,
}
use gki_pass.Base.Maps.{insert, lookup, nat_eq, string_eq}
use gki_pass.Base.Int.{int_eq}

-- An int, as its bit pattern: packets come from JSON, where any number may stand.
abbrev pub Priority : Type 0
Priority = ℕ

abbrev pub low : Priority
low = 0

abbrev pub normal : Priority
normal = 1

abbrev pub high : Priority
high = 2

abbrev pub critical : Priority
critical = 3

-- `a < b` of ints is `ltb (rank a) (rank b)`.
unfoldable pub rank : Priority → ℕ
rank priority = (priority + 2 ^ 63) % 2 ^ 64

pub record Packet : Type 0 where
  pub id : String
  pub bytes : List ℕ
  pub priority : Priority
  pub timestamp : ℕ
  pub deadline : ℕ
  pub retries : ℕ

abbrev pub second : ℕ
second = 1000000000

-- `NewPacket`
unfoldable pub new_packet : String → List ℕ → Priority → ℕ → Packet
new_packet id bytes priority now = record {
  id = id;
  bytes = bytes;
  priority = priority;
  timestamp = now;
  deadline = now + 30 * second;
  retries = 0;
}

-- `Packet.IsExpired`
unfoldable pub is_expired : Packet → ℕ → Bool
is_expired p now = ltb p.deadline now

-- `priorityQueue.Less`, of two packets.
unfoldable pub less : Packet → Packet → Bool
less p q =
    if not (rank p.priority == rank q.priority)
    then ltb (rank q.priority) (rank p.priority)
    else ltb p.timestamp q.timestamp

-- No packet, where an index is out of range.
abbrev pub no_packet : Packet
no_packet = record { id = ""; bytes = []; priority = low; timestamp = 0; deadline = 0; retries = 0 }

abbrev pub at : List Packet → ℕ → Packet
at ps i = get_or ps i no_packet

-- `priorityQueue.Swap`
unfoldable pub swap : ℕ → ℕ → List Packet → List Packet
swap i j ps = set (set ps i (at ps j)) j (at ps i)

-- `up` of container/heap, on fuel: a round at least halves the index.
unfoldable pub up : ℕ → ℕ → List Packet → List Packet
up zero j ps = ps
up (suc rounds) j ps =
    let i = (j - 1) / 2 in
    let rest = up rounds i (swap i j ps) in
    if i == j || not (less (at ps j) (at ps i)) then ps else rest

-- The child of a place that `down` compares with.
unfoldable pub child : ℕ → ℕ → List Packet → ℕ
child i n ps =
    if ltb (2 * i + 2) n && less (at ps (2 * i + 2)) (at ps (2 * i + 1))
    then 2 * i + 2
    else 2 * i + 1

-- `down` of container/heap, on fuel: a round moves to a greater index.
unfoldable pub down : ℕ → ℕ → ℕ → List Packet → List Packet × ℕ
down zero i n ps = (ps, i)
down (suc rounds) i n ps =
    let j = child i n ps in
    let rest = down rounds j n (swap i j ps) in
    if leb n (2 * i + 1) || not (less (at ps j) (at ps i)) then (ps, i) else rest

-- `heap.Push`
unfoldable pub heap_push : Packet → List Packet → List Packet
heap_push p ps = up (length ps + 1) (length ps) (ps ++ (p ∷ []))

-- `heap.Pop`, of a heap that is not empty.
unfoldable pub heap_pop : List Packet → List Packet × Packet
heap_pop ps =
    let n = length ps - 1 in
    let settled = (down n 0 n (swap 0 n ps)).0 in (take n settled, at settled n)

-- `heap.Remove`, of an index within the heap.
unfoldable pub heap_remove : ℕ → List Packet → List Packet × Packet
heap_remove i ps =
    let n = length ps - 1 in
    let (settled, place) = down n i n (swap i n ps) in
    let fixed = if n == i then ps else if ltb i place then settled else up (i + 1) i settled in
    (take n fixed, at fixed n)

pub record PriorityStats : Type 0 where
  pub enqueued : ℕ
  pub dequeued : ℕ
  pub dropped : ℕ
  pub expired : ℕ

abbrev pub no_stats : PriorityStats
no_stats = record { enqueued = 0; dequeued = 0; dropped = 0; expired = 0 }

pub data Event : Type 0 where
  enqueue_event : Event
  dequeue_event : Event
  drop_event : Event
  expire_event : Event

-- A counter of one kind goes up.
unfoldable pub count : Event → PriorityStats → PriorityStats
count enqueue_event s = record s { enqueued = (s.enqueued + 1) % 2 ^ 64 }
count dequeue_event s = record s { dequeued = (s.dequeued + 1) % 2 ^ 64 }
count drop_event s = record s { dropped = (s.dropped + 1) % 2 ^ 64 }
count expire_event s = record s { expired = (s.expired + 1) % 2 ^ 64 }

-- `totals` has totalEnqueued, totalDequeued, totalDropped and totalExpired.
pub record PriorityQueue : Type 0 where
  pub queue : List Packet
  pub max_size : ℕ
  pub closed : Bool
  pub totals : PriorityStats
  pub priority_stats : List (ℕ × PriorityStats)

-- `NewPriorityQueue`
unfoldable pub new_priority_queue : ℕ → PriorityQueue
new_priority_queue max_size = record {
  queue = [];
  max_size = max_size;
  closed = false;
  totals = no_stats;
  priority_stats =
      (low, no_stats) ∷ (normal, no_stats) ∷ (high, no_stats) ∷ (critical, no_stats) ∷ [];
}

-- What a call returns, unless it panics.
pub data Outcome (A : Type 0) : Type 0 where
  returned : A → Outcome A
  panicked : Outcome A

-- Whether `pq.priorityStats` has an entry for a priority.
unfoldable pub has_stats : Priority → List (ℕ × PriorityStats) → Bool
has_stats priority stats = elim (lookup priority stats) [ none ↦ false | some s ↦ true ]

-- The total goes up, and then the counter of the packet's priority; the Boolean is false when there
-- is no such counter, and the program follows a nil pointer.
unfoldable pub note : Event → Packet → PriorityQueue → PriorityQueue × Bool
note e p q = (
  record q {
    totals = count e q.totals;
    priority_stats = elim (lookup p.priority q.priority_stats) [
      | none ↦ q.priority_stats
      | some s ↦ insert p.priority (count e s) q.priority_stats
    ];
  },
  has_stats p.priority q.priority_stats,
)

-- The counters, and then an answer.
unfoldable pub noting :
    {A : Type 0} → Event → Packet → PriorityQueue → A → PriorityQueue × Outcome A
noting e p q answer =
    let (later, fine) = note e p q in (later, if fine then returned answer else panicked)

-- The loop of `tryDropLowPriority`, from the place before `i` down.
unfoldable pub last_below : ℕ → Priority → List Packet → Option ℕ
last_below zero wanted ps = none
last_below (suc i) wanted ps =
    let rest = last_below i wanted ps in
    if ltb (rank (at ps i).priority) (rank wanted) then some i else rest

-- `tryDropLowPriority`
unfoldable pub try_drop_low_priority : Priority → PriorityQueue → PriorityQueue × Outcome Bool
try_drop_low_priority wanted q = elim (last_below (length q.queue) wanted q.queue) [
  | none ↦ (q, returned false)
  | some i ↦
      let (rest, p) = heap_remove i q.queue in noting drop_event p (record q { queue = rest }) true
]

-- The part of `Enqueue` that adds the packet.
unfoldable pub push_packet : Packet → PriorityQueue → PriorityQueue × Outcome Bool
push_packet p q = noting enqueue_event p (record q { queue = heap_push p q.queue }) true

-- `Enqueue`; the Boolean says that there was no error.
unfoldable pub enqueue : Packet → PriorityQueue → PriorityQueue × Outcome Bool
enqueue p q =
    if q.closed
    then (q, returned false)
    else if leb q.max_size (length q.queue)
    then (let (roomy, dropped) = try_drop_low_priority p.priority q in
        elim dropped [
          | panicked ↦ (roomy, panicked)
          | returned true ↦ push_packet p roomy
          | returned false ↦ noting drop_event p roomy false
        ])
    else push_packet p q

-- The places of the expired packets, the last one first.
unfoldable pub expired_places : ℕ → ℕ → List Packet → List ℕ
expired_places zero now ps = []
expired_places (suc i) now ps =
    let rest = expired_places i now ps in if is_expired (at ps i) now then i ∷ rest else rest

unfoldable pub remove_places : List ℕ → PriorityQueue → PriorityQueue × Outcome Unit
remove_places [] q = (q, returned tt)
remove_places (i ∷ places) q =
    let (rest, p) = heap_remove i q.queue in
    let (noted, fine) = note expire_event p (record q { queue = rest }) in
    let later = remove_places places noted in if fine then later else (noted, panicked)

-- `cleanupExpired`
unfoldable pub cleanup_expired : ℕ → PriorityQueue → PriorityQueue × Outcome Unit
cleanup_expired now q = remove_places (expired_places (length q.queue) now q.queue) q

-- `TryDequeue`
unfoldable pub try_dequeue : ℕ → PriorityQueue → PriorityQueue × Outcome (Option Packet)
try_dequeue now q =
    let (clean, swept) = cleanup_expired now q in
    elim swept [
      | panicked ↦ (clean, panicked)
      | returned done ↦
          if length clean.queue == 0
          then (clean, returned none)
          else (let (rest, p) = heap_pop clean.queue in
              noting dequeue_event p (record clean { queue = rest }) (some p))
    ]

-- `Close`
unfoldable pub close : PriorityQueue → PriorityQueue
close q = record q { closed = true }
