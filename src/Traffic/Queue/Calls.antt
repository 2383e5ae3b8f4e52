-- ===== src/Traffic/Queue/Calls.antt =====
-- queue.go: any number of calls on a new queue.
use gki_pass.Base.{
  Bool, Bool-cases, List, [], arith, false, if-cases, inl, inr, length, ltb, not, refl, true, ap, ℕ,
  ◌∷◌, ◌≡◌, ◌||◌, ◌∙◌,
}
use gki_pass.Base.Maps.{nat_eq, string_eq, lookup}
use gki_pass.Traffic.Queue.{
  Outcome, Packet, PriorityQueue, close, enqueue, new_priority_queue, panicked, returned,
  try_dequeue, has_stats, try_drop_low_priority, push_packet, noting, note, remove_places,
  heap_remove, expire_event, cleanup_expired, expired_places,
}
use gki_pass.Traffic.Queue.Sound.{IsSound, enqueue-IsSound, try_dequeue-IsSound}
use gki_pass.Traffic.Queue.Stats.{
  Known, Returns, enqueue-Returns, enqueue-panicked, try_dequeue-Returns,
}

-- A call that does not wait.
pub data QueueCall : Type 0 where
  enqueues : Packet → QueueCall
  dequeues : ℕ → QueueCall
  closes : QueueCall

-- A caller that recovers from a panic goes on with the next call.
abbrev pub run_calls : List QueueCall → PriorityQueue → PriorityQueue
run_calls [] q = q
run_calls (enqueues p ∷ calls) q = run_calls calls (enqueue p q).0
run_calls (dequeues now ∷ calls) q = run_calls calls (try_dequeue now q).0
run_calls (closes ∷ calls) q = run_calls calls (close q)

abbrev pub has_panicked : {A : Type 0} → Outcome A → Bool
has_panicked (returned a) = false
has_panicked panicked = true

-- Whether one of the calls panics.
abbrev pub panics : List QueueCall → PriorityQueue → Bool
panics [] q = false
panics (enqueues p ∷ calls) q = let (later, r) = enqueue p q in has_panicked r || panics calls later
panics (dequeues now ∷ calls) q =
    let (later, r) = try_dequeue now q in has_panicked r || panics calls later
panics (closes ∷ calls) q = panics calls (close q)

-- Whether a packet comes, before the first `Close`, whose priority is none of the four.
abbrev pub brings_unknown : List QueueCall → Bool
brings_unknown [] = false
brings_unknown (enqueues p ∷ calls) = not (ltb p.priority 4) || brings_unknown calls
brings_unknown (dequeues now ∷ calls) = brings_unknown calls
brings_unknown (closes ∷ calls) = false

IsSound-run_calls :
    (calls : List QueueCall) (q : PriorityQueue) → IsSound q → IsSound (run_calls calls q)
unfolding close
IsSound-run_calls [] q sound = sound
IsSound-run_calls (enqueues p ∷ calls) q sound =
    IsSound-run_calls calls (enqueue p q).0 (enqueue-IsSound p q sound)
IsSound-run_calls (dequeues now ∷ calls) q sound =
    IsSound-run_calls calls (try_dequeue now q).0 (try_dequeue-IsSound now q sound)
IsSound-run_calls (closes ∷ calls) q sound = IsSound-run_calls calls (close q) sound

enqueue-shut :
    (p : Packet) (q : PriorityQueue) → q.closed ≡ true → enqueue p q ≡ (q, returned false)
unfolding enqueue
enqueue-shut p q e = ground arith

-- Only `Close` closes.
closed-enqueue : (p : Packet) (q : PriorityQueue) → (enqueue p q).0.closed ≡ q.closed
unfolding enqueue try_drop_low_priority push_packet noting note
closed-enqueue p q = ground arith

closed-remove_places :
    (places : List ℕ) (q : PriorityQueue) → (remove_places places q).0.closed ≡ q.closed
unfolding remove_places note
closed-remove_places [] q = refl
closed-remove_places (i ∷ places) q =
    let (rest, p) = heap_remove i q.queue in
    let later = closed-remove_places places (note expire_event p (record q { queue = rest })).0 in
    if-cases (λ (r : PriorityQueue × Outcome Unit). r.0.closed ≡ q.closed)
      (has_stats p.priority q.priority_stats) (λ e. later) (λ e. refl)

closed-try_dequeue : (now : ℕ) (q : PriorityQueue) → (try_dequeue now q).0.closed ≡ q.closed
unfolding try_dequeue cleanup_expired noting note
closed-try_dequeue now q =
    let swept = closed-remove_places (expired_places (length q.queue) now q.queue) q in
    ground (arith, swept)

Returns-has_panicked :
    {A : Type 0} (r : PriorityQueue × Outcome A) → Returns r → has_panicked r.1 ≡ false
Returns-has_panicked r (known, (a, e)) = ap has_panicked e

panics-closed :
    (calls : List QueueCall) (q : PriorityQueue)
    → IsSound q
    → Known q
    → q.closed ≡ true
    → panics calls q ≡ false
unfolding close
panics-closed [] q sound known shut = refl
panics-closed (enqueues p ∷ calls) q sound known shut =
    let same = enqueue-shut p q shut in
    let rest = panics-closed calls q sound known shut in
    ap (λ (r : PriorityQueue × Outcome Bool). has_panicked r.1 || panics calls r.0) same ∙ rest
panics-closed (dequeues now ∷ calls) q sound known shut =
    let out = try_dequeue-Returns now q sound known in
    let calm = Returns-has_panicked (try_dequeue now q) out in
    let rest =
      panics-closed calls (try_dequeue now q).0 (try_dequeue-IsSound now q sound) out.0
        (closed-try_dequeue now q ∙ shut) in
    ground (arith, calm, rest)
panics-closed (closes ∷ calls) q sound known shut = panics-closed calls (close q) sound known refl

panics-open :
    (calls : List QueueCall) (q : PriorityQueue)
    → IsSound q
    → Known q
    → q.closed ≡ false
    → panics calls q ≡ brings_unknown calls
unfolding close
panics-open [] q sound known open_still = refl
panics-open (enqueues p ∷ calls) q sound known open_still = elim (Bool-cases (ltb p.priority 4)) [
  | inl e ↦
      let out = enqueue-Returns p q sound.0 known e in
      let calm = Returns-has_panicked (enqueue p q) out in
      let rest =
        panics-open calls (enqueue p q).0 (enqueue-IsSound p q sound) out.0
          (closed-enqueue p q ∙ open_still) in
      ground (arith, calm, rest, e)
  | inr e ↦
      let loud = ap has_panicked (enqueue-panicked p q sound.0 known open_still e) in
      ground (arith, loud, e)
]
panics-open (dequeues now ∷ calls) q sound known open_still =
    let out = try_dequeue-Returns now q sound known in
    let calm = Returns-has_panicked (try_dequeue now q) out in
    let rest =
      panics-open calls (try_dequeue now q).0 (try_dequeue-IsSound now q sound) out.0
        (closed-try_dequeue now q ∙ open_still) in
    ground (arith, calm, rest)
panics-open (closes ∷ calls) q sound known open_still =
    panics-closed calls (close q) sound known refl

new-Known : (max_size : ℕ) → Known (new_priority_queue max_size)
unfolding new_priority_queue has_stats lookup
new-Known max_size = ((λ k. ground arith), refl)

-- After any calls of `Enqueue`, `TryDequeue` and `Close` on a new queue, with all the packets that
-- they drop and sweep out, and although some may panic, the queue is in the order of a heap and
-- within its limit. A call panics exactly if, before the first `Close`, a packet is brought whose
-- priority is none of the four.
pub run_calls-IsSound :
    (max_size : ℕ) (calls : List QueueCall)
    → IsSound (run_calls calls (new_priority_queue max_size))
      × (panics calls (new_priority_queue max_size) ≡ brings_unknown calls)
unfolding new_priority_queue
run_calls-IsSound max_size calls =
    let q = new_priority_queue max_size in
    let sound : IsSound q = ((λ k over inside. absurd (omega arith)), omega arith) in
    (IsSound-run_calls calls q sound, panics-open calls q sound (new-Known max_size) refl)
