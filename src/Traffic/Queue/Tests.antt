-- ===== src/Traffic/Queue/Tests.antt =====
-- queue.go: runs, and the theorems at concrete inputs.
use gki_pass.Base.{List, String, [], arith, false, true, map, refl, suc, zero, ℕ, ◌∷◌, ◌≡◌}
use gki_pass.Base.Maps.{insert, lookup, nat_eq, string_eq}
use gki_pass.Base.Int.{int_eq}
use gki_pass.Traffic.Queue.{
  Packet, Priority, rank, has_stats, PriorityQueue, child, cleanup_expired, critical, down,
  expired_places, heap_remove, high, is_expired, less, low, new_priority_queue, no_stats, note,
  remove_places, swap, try_dequeue, up,
}
use gki_pass.Traffic.Queue.First.{Counted, Dequeued, Live, Whole, try_dequeue-Dequeued}
use gki_pass.Traffic.Queue.Sound.{IsSound}
use gki_pass.Traffic.Queue.Calls.{
  QueueCall, closes, dequeues, enqueues, panics, run_calls, run_calls-IsSound,
}

abbrev packet : String → Priority → ℕ → ℕ → Packet
packet id priority timestamp deadline = record {
  id = id;
  bytes = [];
  priority = priority;
  timestamp = timestamp;
  deadline = deadline;
  retries = 0;
}

abbrev queue_of : List Packet → PriorityQueue
queue_of ps = record {
  queue = ps;
  max_size = 10;
  closed = false;
  totals = no_stats;
  priority_stats = (0, no_stats) ∷ (1, no_stats) ∷ (2, no_stats) ∷ (3, no_stats) ∷ [];
}

abbrev two : List Packet
two = packet "a" high 1 50 ∷ packet "b" low 2 50 ∷ []

two-Whole : Whole two
unfolding less rank
two-Whole zero over inside = absurd (omega arith)
two-Whole (suc zero) over inside = refl
two-Whole (suc (suc k)) over inside = absurd (omega arith)

two-Live : Live 9 two
unfolding is_expired
two-Live zero inside = refl
two-Live (suc zero) inside = refl
two-Live (suc (suc k)) inside = absurd (omega arith)

two-Counted : Counted (queue_of two)
unfolding has_stats lookup
two-Counted zero inside = refl
two-Counted (suc zero) inside = refl
two-Counted (suc (suc k)) inside = absurd (omega arith)

try_dequeue-Dequeued_example : Dequeued (queue_of two) (try_dequeue 9 (queue_of two))
try_dequeue-Dequeued_example =
    try_dequeue-Dequeued 9 (queue_of two) two-Whole (omega arith) two-Live two-Counted

-- At time 9 the packets "b" and "d" have expired.
abbrev six : List Packet
six =
    packet "a" critical 1 50
    ∷ packet "b" low 1 5
    ∷ packet "c" high 1 50
    ∷ packet "d" low 2 5
    ∷ packet "e" low 3 50
    ∷ packet "f" high 2 50
    ∷ []

-- The sweep takes out "d" and "f": removing "d" moved "f" to the place of "b".
sweeps : map (λ p. p.id) (cleanup_expired 9 (queue_of six)).0.queue ≡ "a" ∷ "b" ∷ "c" ∷ "e" ∷ []
unfolding cleanup_expired remove_places expired_places is_expired note heap_remove down up less rank
    swap child has_stats lookup insert
sweeps = refl

-- The packet "d" has a priority that has no name.
abbrev calls : List QueueCall
calls =
    enqueues (packet "a" low 1 5)
    ∷ enqueues (packet "b" high 2 5)
    ∷ enqueues (packet "c" high 3 9)
    ∷ dequeues 7
    ∷ enqueues (packet "d" 9 4 20)
    ∷ closes
    ∷ []

run_calls-IsSound_example :
    IsSound (run_calls calls (new_priority_queue 2)) × (panics calls (new_priority_queue 2) ≡ true)
run_calls-IsSound_example = run_calls-IsSound 2 calls
