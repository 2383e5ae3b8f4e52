-- ===== src/Traffic/Queue/Sound.antt =====
-- queue.go: each call keeps the order of the heap and the limit, also when it panics.
use gki_pass.Base.{
  Bool-cases, List, Option-cases, [], arith, if-cases, inl, inr, leb, length, ltb, refl, some,
  subst, suc, sym, zero, ℕ, ◌<◌, ◌==◌, ◌∷◌, ◌≡◌, ◌≤◌, ◌⊎◌,
}
use gki_pass.Base.Maps.{nat_eq, string_eq}
use gki_pass.Base.Int.{int_eq}
use gki_pass.Traffic.Queue.{
  Outcome, Packet, Priority, PriorityQueue, at, cleanup_expired, dequeue_event, drop_event, enqueue,
  expire_event, expired_places, has_stats, heap_pop, heap_remove, is_expired, last_below, note,
  noting, panicked, push_packet, rank, remove_places, returned, try_dequeue, try_drop_low_priority,
}
use gki_pass.Traffic.Queue.First.{Whole, heap_pop-Popped, heap_push-Whole}
use gki_pass.Traffic.Queue.Remove.{heap_remove-Removed}
use Prim.{tt}

-- The packets are in the order of a heap, and not more than the limit.
abbrev pub IsSound : PriorityQueue → Type 0
IsSound q = Whole q.queue × (length q.queue ≤ q.max_size)

pub Outcome-cases : {A : Type 0} (r : Outcome A) → ((a : A) × (r ≡ returned a)) ⊎ (r ≡ panicked)
Outcome-cases (returned a) = inl (a, refl)
Outcome-cases panicked = inr refl

pub last_below-lt :
    (n : ℕ) (wanted : Priority) (ps : List Packet) (i : ℕ) → last_below n wanted ps ≡ some i → i < n
unfolding last_below
last_below-lt zero wanted ps i e = absurd (ground arith)
last_below-lt (suc n) wanted ps i e =
    elim (Bool-cases (ltb (rank (at ps n).priority) (rank wanted))) [
      | inl f ↦ ground arith
      | inr f ↦ let rest = last_below-lt n wanted ps i (ground arith) in omega (arith, rest)
    ]

push_packet-IsSound :
    (p : Packet) (q : PriorityQueue)
    → Whole q.queue
    → length q.queue < q.max_size
    → IsSound (push_packet p q).0
unfolding push_packet note noting
push_packet-IsSound p q heap room =
    let (whole, longer, added) = heap_push-Whole p q.queue heap in (whole, omega (arith, longer))

pub enqueue-IsSound : (p : Packet) (q : PriorityQueue) → IsSound q → IsSound (enqueue p q).0
unfolding enqueue try_drop_low_priority note noting
enqueue-IsSound p q (heap, few) =
    let result = (enqueue p q).0 in
    elim (Bool-cases q.closed) [
      | inl e ↦ let stays : result ≡ q = ground arith in subst IsSound (sym stays) (heap, few)
      | inr e ↦ elim (Bool-cases (leb q.max_size (length q.queue))) [
        | inr f ↦
            let goes : result ≡ (push_packet p q).0 = ground arith in
            subst IsSound (sym goes) (push_packet-IsSound p q heap (ground arith))
        | inl f ↦ elim (Option-cases (last_below (length q.queue) p.priority q.queue)) [
          | inl g ↦
              let goes : result ≡ (note drop_event p q).0 = ground arith in
              subst IsSound (sym goes) (heap, few)
          | inr (i, g) ↦
              let inside = last_below-lt (length q.queue) p.priority q.queue i g in
              let (rest, out) = heap_remove i q.queue in
              let (same, whole, shorter, kept) = heap_remove-Removed i q.queue heap inside in
              let roomy = (note drop_event out (record q { queue = rest })).0 in
              elim (Bool-cases (has_stats out.priority q.priority_stats)) [
                | inl there ↦
                    let goes : result ≡ (push_packet p roomy).0 = ground arith in
                    subst IsSound (sym goes)
                      (push_packet-IsSound p roomy whole (omega (arith, shorter)))
                | inr none_ ↦
                    let goes : result ≡ roomy = ground arith in
                    subst IsSound (sym goes) (whole, omega (arith, shorter))
              ]
        ]
      ]
    ]

-- Places below a bound, each below the one before.
abbrev pub Falling : ℕ → List ℕ → Type 0
Falling bound [] = Unit {0}
Falling bound (i ∷ places) = (i < bound) × Falling i places

pub Falling-weaken : (a b : ℕ) (places : List ℕ) → a ≤ b → Falling a places → Falling b places
Falling-weaken a b [] h f = tt
Falling-weaken a b (i ∷ places) h (k, f) = (omega arith, f)

pub expired_places-Falling : (n now : ℕ) (ps : List Packet) → Falling n (expired_places n now ps)
unfolding expired_places
expired_places-Falling zero now ps = tt
expired_places-Falling (suc n) now ps =
    let rest = expired_places-Falling n now ps in
    if-cases (Falling (suc n)) (is_expired (at ps n) now) (λ e. (omega arith, rest))
      (λ e. Falling-weaken n (suc n) (expired_places n now ps) (omega arith) rest)

pub remove_places-IsSound :
    (places : List ℕ) (q : PriorityQueue)
    → IsSound q
    → Falling (length q.queue) places
    → IsSound (remove_places places q).0
unfolding remove_places note
remove_places-IsSound [] q sound f = sound
remove_places-IsSound (i ∷ places) q (heap, few) (inside, f) =
    let (rest, out) = heap_remove i q.queue in
    let (same, whole, shorter, kept) = heap_remove-Removed i q.queue heap inside in
    let noted = (note expire_event out (record q { queue = rest })).0 in
    let sound : IsSound noted = (whole, omega (arith, shorter)) in
    if-cases (λ (r : PriorityQueue × Outcome Unit). IsSound r.0)
      (has_stats out.priority q.priority_stats)
      (λ e.
        remove_places-IsSound places noted sound
          (Falling-weaken i (length rest) places (omega (arith, shorter)) f))
      (λ e. sound)

pub try_dequeue-IsSound : (now : ℕ) (q : PriorityQueue) → IsSound q → IsSound (try_dequeue now q).0
unfolding try_dequeue cleanup_expired note noting
try_dequeue-IsSound now q sound =
    let (clean, swept) = cleanup_expired now q in
    let kept_sound : IsSound clean =
      remove_places-IsSound (expired_places (length q.queue) now q.queue) q sound
        (expired_places-Falling (length q.queue) now q.queue) in
    elim (Outcome-cases swept) [
      | inr e ↦
          let goes : (try_dequeue now q).0 ≡ clean = ground arith in
          subst IsSound (sym goes) kept_sound
      | inl (done, s) ↦ elim (Bool-cases (length clean.queue == 0)) [
        | inl e ↦
            let goes : (try_dequeue now q).0 ≡ clean = ground arith in
            subst IsSound (sym goes) kept_sound
        | inr e ↦
            let (rest, p) = heap_pop clean.queue in
            let (top, whole, shorter, kept, first) =
              heap_pop-Popped clean.queue kept_sound.0 (ground arith) in
            let noted = (note dequeue_event p (record clean { queue = rest })).0 in
            let goes : (try_dequeue now q).0 ≡ noted = ground arith in
            let limit = kept_sound.1 in
            subst IsSound (sym goes) (whole, omega (arith, shorter, limit))
      ]
    ]
