-- ===== src/Plane/Login/Agreement.antt =====
-- rate_limit.go: the limiter agrees with its history over every event.
-- The limiter and its history agree on every time from `from` on.
use gki_pass.Base.{
  Bool-cases, List, String, [], ap, append-nil, arith, if◌then◌else◌, inl, inr, length,
  length-append, subst, sym, ℕ, ◌++◌, ◌<◌, ◌∙◌, ◌∷◌, ◌≡◌, ◌≤◌,
}
use gki_pass.Base.Maps.{insert, string_eq}
use gki_pass.Plane.Login.{LoginRateLimiter, attempts_of, cleanup, valid}
use gki_pass.Plane.Login.Window.{
  History, NoDup, NoDup-cleaned, NoDup-insert, attempts-insert, cleaned-attempts, recent,
  recent-append, valid-append, valid-valid,
}

pub record Agrees (limit w from : ℕ) (rl : LoginRateLimiter) (log : History) : Type 0 where
  pub same_window : rl.window ≡ w
  pub same_limit : rl.max_attempts ≡ limit
  pub unique : NoDup rl.attempts
  pub stored :
      (ip : String) (now : ℕ)
      → from ≤ now
      → valid w now (attempts_of ip rl.attempts) ≡ recent w ip now log
  pub limited : (ip : String) (now : ℕ) → from ≤ now → length (recent w ip now log) ≤ limit

pub sweep-Agrees :
    (limit w from now : ℕ) (rl : LoginRateLimiter) (log : History)
    → Agrees limit w from rl log
    → from ≤ now
    → Agrees limit w now (cleanup now rl) log
unfolding cleanup
sweep-Agrees limit w from now rl log v h = record {
  same_window = v.same_window;
  same_limit = v.same_limit;
  unique = NoDup-cleaned rl.window now rl.attempts v.unique;
  stored = λ ip later k.
      ap (valid w later) (cleaned-attempts rl.window now ip rl.attempts v.unique)
      ∙ ap (λ x. valid w later (valid x now (attempts_of ip rl.attempts))) v.same_window
      ∙ valid-valid w now later (attempts_of ip rl.attempts) k
      ∙ v.stored ip later (omega arith);
  limited = λ ip later k. v.limited ip later (omega arith);
}

length-valid_le : (w now : ℕ) (ts : List ℕ) → length (valid w now ts) ≤ length ts
unfolding valid
length-valid_le w now [] = omega arith
length-valid_le w now (t ∷ ts) = ground (arith, length-valid_le w now ts)

-- The times of an address that the limiter keeps at a request.
pub kept-recent :
    (limit w from now : ℕ) (ip : String) (rl : LoginRateLimiter) (log : History)
    → Agrees limit w from rl log
    → from ≤ now
    → valid rl.window now (attempts_of ip rl.attempts) ≡ recent w ip now log
kept-recent limit w from now ip rl log v h =
    ap (λ x. valid x now (attempts_of ip rl.attempts)) v.same_window ∙ v.stored ip now h

-- Keeping those times, for whichever address, changes nothing later.
kept-stored :
    (limit w from now later : ℕ) (ip i : String) (rl : LoginRateLimiter) (log : History)
    → Agrees limit w from rl log
    → from ≤ now
    → now ≤ later
    → valid w later (attempts_of i (insert ip (recent w ip now log) rl.attempts))
      ≡ recent w i later log
kept-stored limit w from now later ip i rl log v h k = elim (Bool-cases (string_eq.beq ip i)) [
  | inr other ↦ ground (
    arith,
    attempts-insert ip i (recent w ip now log) rl.attempts,
    other,
    v.stored i later (omega arith),
  )
  | inl same ↦
      let e : ip ≡ i = (string_eq.beq_iff ip i).0 same in
      ap (valid w later)
        (attempts-insert ip i (recent w ip now log) rl.attempts ∙ ground (arith, same))
      ∙ ap (valid w later) (sym (v.stored ip now h))
      ∙ valid-valid w now later (attempts_of ip rl.attempts) k
      ∙ v.stored ip later (omega arith)
      ∙ ap (λ j. recent w j later log) e
]

recent-fewer :
    (limit w from now later : ℕ) (ip : String) (rl : LoginRateLimiter) (log : History)
    → Agrees limit w from rl log
    → from ≤ now
    → now ≤ later
    → length (recent w ip later log) ≤ length (recent w ip now log)
recent-fewer limit w from now later ip rl log v h k =
    subst (λ xs. length xs ≤ length (recent w ip now log))
      (ap (valid w later) (sym (v.stored ip now h))
        ∙ valid-valid w now later (attempts_of ip rl.attempts) k
        ∙ v.stored ip later (omega arith))
      (length-valid_le w later (recent w ip now log))

-- The two ways a request may go.
pub refused-Agrees :
    (limit w from now : ℕ) (ip : String) (rl : LoginRateLimiter) (log : History)
    → Agrees limit w from rl log
    → from ≤ now
    → Agrees limit w now (record rl { attempts = insert ip (recent w ip now log) rl.attempts }) log
refused-Agrees limit w from now ip rl log v h = record {
  same_window = v.same_window;
  same_limit = v.same_limit;
  unique = NoDup-insert ip (recent w ip now log) rl.attempts v.unique;
  stored = λ i later k. kept-stored limit w from now later ip i rl log v h k;
  limited = λ i later k. v.limited i later (omega arith);
}

accepted-stored :
    (limit w from now later : ℕ) (ip i : String) (rl : LoginRateLimiter) (log : History)
    → Agrees limit w from rl log
    → from ≤ now
    → now ≤ later
    → valid w later (attempts_of i (insert ip (recent w ip now log ++ now ∷ []) rl.attempts))
      ≡ recent w i later (log ++ (ip, now) ∷ [])
accepted-stored limit w from now later ip i rl log v h k = ground (
  arith,
  attempts-insert ip i (recent w ip now log ++ now ∷ []) rl.attempts,
  attempts-insert ip i (recent w ip now log) rl.attempts,
  kept-stored limit w from now later ip i rl log v h k,
  valid-append w later (recent w ip now log) (now ∷ []),
  recent-append w i later log ip now,
  append-nil (recent w i later log),
)

pub accepted-Agrees :
    (limit w from now : ℕ) (ip : String) (rl : LoginRateLimiter) (log : History)
    → Agrees limit w from rl log
    → from ≤ now
    → length (recent w ip now log) < limit
    → Agrees limit w now
        (record rl { attempts = insert ip (recent w ip now log ++ now ∷ []) rl.attempts })
        (log ++ (ip, now) ∷ [])
accepted-Agrees limit w from now ip rl log v h room = record {
  same_window = v.same_window;
  same_limit = v.same_limit;
  unique = NoDup-insert ip (recent w ip now log ++ now ∷ []) rl.attempts v.unique;
  stored = λ i later k. accepted-stored limit w from now later ip i rl log v h k;
  limited = λ i later k. still_limited i later k;
}
  where
    one_more :
        (later : ℕ) → length (if string_eq.beq ip ip then valid w later (now ∷ []) else []) ≤ 1
    one_more later = ground (arith, length-valid_le w later (now ∷ []))

    still_limited :
        (i : String) (later : ℕ)
        → now ≤ later
        → length (recent w i later (log ++ (ip, now) ∷ [])) ≤ limit
    still_limited i later k = elim (Bool-cases (string_eq.beq ip i)) [
      | inr other ↦ ground (
        arith,
        recent-append w i later log ip now,
        append-nil (recent w i later log),
        other,
        v.limited i later (omega arith),
      )
      | inl same ↦
          let e : ip ≡ i = (string_eq.beq_iff ip i).0 same in
          subst (λ j. length (recent w j later (log ++ (ip, now) ∷ [])) ≤ limit) e
            (omega (
              arith,
              ap (length {A = ℕ}) (recent-append w ip later log ip now),
              length-append (recent w ip later log)
                  (if string_eq.beq ip ip then valid w later (now ∷ []) else []),
              one_more later,
              recent-fewer limit w from now later ip rl log v h k,
            ))
    ]
