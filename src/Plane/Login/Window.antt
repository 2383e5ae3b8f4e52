-- ===== src/Plane/Login/Window.antt =====
-- rate_limit.go: the limiter against the history of the requests it let through.
-- What happens to the limiter: a request, or a round of the cleanup.
use gki_pass.Base.{
  Bool, List, String, [], arith, false, if◌then◌else◌, ltb, none, refl, subst, true, ℕ, ◌&&◌, ◌++◌,
  ◌+◌, ◌∷◌, ◌≡◌, ◌≤◌,
}
use gki_pass.Base.Maps.{insert, lookup, lookup-insert, string_eq}
use gki_pass.Plane.Login.{LoginRateLimiter, attempts_of, cleaned, cleanup, middleware, valid}

pub data LoginEvent : Type 0 where
  asks : String → ℕ → LoginEvent
  sweeps : ℕ → LoginEvent

abbrev pub time : LoginEvent → ℕ
time (asks ip now) = now
time (sweeps now) = now

-- The requests let through, with their times, the first one first.
abbrev pub History : Type 0
History = List (String × ℕ)

abbrev pub logged : String → ℕ → History → LoginRateLimiter × Bool → LoginRateLimiter × History
logged ip now log (rl, true) = (rl, log ++ (ip, now) ∷ [])
logged ip now log (rl, false) = (rl, log)

unfoldable pub run_logins :
    List LoginEvent → LoginRateLimiter → History → LoginRateLimiter × History
run_logins [] rl log = (rl, log)
run_logins (asks ip now ∷ rest) rl log =
    let (rl', log') = logged ip now log (middleware ip now rl) in run_logins rest rl' log'
run_logins (sweeps now ∷ rest) rl log = run_logins rest (cleanup now rl) log

-- The times at which an address was let through, within the window before `now`.
unfoldable pub recent : ℕ → String → ℕ → History → List ℕ
recent window ip now [] = []
recent window ip now ((i, t) ∷ log) =
    let rest = recent window ip now log in
    if string_eq.beq i ip && ltb now (t + window) then t ∷ rest else rest

-- The events come in the order of their times, none before `from`.
abbrev pub Ordered : ℕ → List LoginEvent → Type 0
Ordered from [] = Unit {0}
Ordered from (e ∷ rest) = (from ≤ time e) × Ordered (time e) rest

pub valid-valid :
    (w now later : ℕ) (ts : List ℕ)
    → now ≤ later
    → valid w later (valid w now ts) ≡ valid w later ts
unfolding valid
valid-valid w now later [] h = refl
valid-valid w now later (t ∷ ts) h = ground (arith, valid-valid w now later ts h)

pub valid-append :
    (w now : ℕ) (xs ys : List ℕ) → valid w now (xs ++ ys) ≡ valid w now xs ++ valid w now ys
unfolding valid
valid-append w now [] ys = refl
valid-append w now (x ∷ xs) ys = ground (arith, valid-append w now xs ys)

pub recent-append :
    (w : ℕ) (ip : String) (now : ℕ) (log : History) (i : String) (t : ℕ)
    → recent w ip now (log ++ (i, t) ∷ [])
      ≡ recent w ip now log ++ (if string_eq.beq i ip then valid w now (t ∷ []) else [])
unfolding recent valid
recent-append w ip now [] i t = ground arith
recent-append w ip now ((j, u) ∷ log) i t = ground (arith, recent-append w ip now log i t)

pub attempts-insert :
    (ip i : String) (ts : List ℕ) (m : List (String × List ℕ))
    → attempts_of i (insert ip ts m) ≡ (if string_eq.beq ip i then ts else attempts_of i m)
attempts-insert ip i ts m = ground (arith, lookup-insert ip i ts m)

-- A cleanup drops only what is outside the window, and the first entry of a key is the one that
-- counts.
abbrev pub NoDup : List (String × List ℕ) → Type 0
NoDup [] = Unit {0}
NoDup ((ip, ts) ∷ m) = (lookup ip m ≡ none) × NoDup m

cleaned-none :
    (w now : ℕ) (ip : String) (m : List (String × List ℕ))
    → lookup ip m ≡ none
    → lookup ip (cleaned w now m) ≡ none
unfolding cleaned lookup
cleaned-none w now ip [] h = refl
cleaned-none w now ip ((i, ts) ∷ m) h = ground (arith, cleaned-none w now ip m)

pub cleaned-attempts :
    (w now : ℕ) (ip : String) (m : List (String × List ℕ))
    → NoDup m
    → attempts_of ip (cleaned w now m) ≡ valid w now (attempts_of ip m)
unfolding cleaned lookup valid
cleaned-attempts w now ip [] d = refl
cleaned-attempts w now ip ((i, ts) ∷ m) d =
    let missing : string_eq.beq i ip ≡ true → lookup ip m ≡ none =
      λ e. subst (λ j. lookup j m ≡ none) ((string_eq.beq_iff i ip).0 e) d.0 in
    ground (arith, missing, cleaned-none w now ip m, cleaned-attempts w now ip m d.1)

pub NoDup-cleaned : (w now : ℕ) (m : List (String × List ℕ)) → NoDup m → NoDup (cleaned w now m)
unfolding cleaned
NoDup-cleaned w now [] d = tt
NoDup-cleaned w now ((i, ts) ∷ m) d =
    ground (arith, cleaned-none w now i m d.0, NoDup-cleaned w now m d.1)

pub NoDup-insert :
    (ip : String) (ts : List ℕ) (m : List (String × List ℕ)) → NoDup m → NoDup (insert ip ts m)
unfolding insert lookup
NoDup-insert ip ts [] d = (refl, tt)
NoDup-insert ip ts ((i, us) ∷ m) d = ground (
  arith,
  string_eq.beq_iff i ip,
  string_eq.beq_iff ip i,
  lookup-insert ip i ts m,
  NoDup-insert ip ts m d.1,
)
