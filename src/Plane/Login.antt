-- ===== src/Plane/Login.antt =====
-- plane/internal/api/middleware/rate_limit.go: the limiter of logins by IP address. Times are
-- nanoseconds, `t.After(now.Add(-window))` is `now < t + window`; the lock makes each request one
-- step, and the answer 429 is `false`. The ticker of `cleanup` is the event of a sweep.
pub mod Window
pub mod Agreement
pub mod Limits
use gki_pass.Base.{
  Bool, List, String, [], false, if◌then◌else◌, leb, length, ltb, none, some, true, ℕ, ◌++◌, ◌+◌,
  ◌∷◌,
}
use gki_pass.Base.Maps.{insert, lookup, string_eq}

pub record LoginRateLimiter : Type 0 where
  pub attempts : List (String × List ℕ)
  pub max_attempts : ℕ
  pub window : ℕ

-- `NewLoginRateLimiter`
unfoldable pub new_login_rate_limiter : ℕ → ℕ → LoginRateLimiter
new_login_rate_limiter max_attempts window = record {
  attempts = [];
  max_attempts = max_attempts;
  window = window;
}

-- The loop that drops the times outside the window.
unfoldable pub valid : ℕ → ℕ → List ℕ → List ℕ
valid window now [] = []
valid window now (t ∷ ts) =
    let rest = valid window now ts in if ltb now (t + window) then t ∷ rest else rest

-- `rl.attempts[ip]`
abbrev pub attempts_of : String → List (String × List ℕ) → List ℕ
attempts_of ip m = elim (lookup ip m) [ none ↦ [] | some ts ↦ ts ]

-- `Middleware`: the limiter, and whether the request goes on.
unfoldable pub middleware : String → ℕ → LoginRateLimiter → LoginRateLimiter × Bool
middleware ip now rl =
    let kept = valid rl.window now (attempts_of ip rl.attempts) in
    if leb rl.max_attempts (length kept)
    then (record rl { attempts = insert ip kept rl.attempts }, false)
    else (record rl { attempts = insert ip (kept ++ now ∷ []) rl.attempts }, true)

unfoldable pub cleaned : ℕ → ℕ → List (String × List ℕ) → List (String × List ℕ)
cleaned window now [] = []
cleaned window now ((ip, ts) ∷ m) =
    let rest = cleaned window now m in
    elim (valid window now ts) [ [] ↦ rest | t ∷ kept ↦ (ip, t ∷ kept) ∷ rest ]

-- One round of `cleanup`.
unfoldable pub cleanup : ℕ → LoginRateLimiter → LoginRateLimiter
unfolding cleaned
cleanup now rl = record rl { attempts = cleaned rl.window now rl.attempts }
