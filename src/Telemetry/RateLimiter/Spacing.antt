-- ===== src/Telemetry/RateLimiter/Spacing.antt =====
-- The spacing of the actions that are allowed.
use gomind.Base.{
  ℕ, ◌≡◌, Bool, true, Option, none, some, List, [], ◌∷◌, arith, if◌then◌else◌, if_cases,
}
use gomind.Base.Int.{ℤ, sub_ℕ, ◌≤ℤ◌}
use gomind.Telemetry.RateLimiter.{RateLimiter, new_rate_limiter, is_due, allow}

-- The times at which calls are allowed, out of the times of all calls.
unfoldable pub allowed_at : RateLimiter → List ℕ → List ℕ
unfolding allow
allowed_at r [] = []
allowed_at r (now ∷ later) =
    let (next, allowed) = allow r now in
    let rest = allowed_at next later in if allowed then now ∷ rest else rest

-- From each time to the next, and from the one before, at least the interval passes.
abbrev pub AreSpaced : ℤ → Option ℕ → List ℕ → Type 0
AreSpaced interval last [] = Unit
AreSpaced interval none (now ∷ later) = AreSpaced interval (some now) later
AreSpaced interval (some last) (now ∷ later) =
    (interval ≤ℤ sub_ℕ now last) × AreSpaced interval (some now) later

AreSpaced-due :
    (interval : ℤ) (last : Option ℕ) (now : ℕ) (later : List ℕ)
    → is_due interval last now ≡ true
    → AreSpaced interval (some now) later
    → AreSpaced interval last (now ∷ later)
unfolding is_due
AreSpaced-due interval none now later d h = h
AreSpaced-due interval (some last) now later d h = (ground arith, h)

allowed_at-AreSpaced :
    (interval : ℤ) (last : Option ℕ) (times : List ℕ)
    → AreSpaced interval last (allowed_at (record { interval = interval; last_time = last }) times)
unfolding allowed_at
allowed_at-AreSpaced interval last [] = tt
allowed_at-AreSpaced interval last (now ∷ later) =
    if_cases
      (λ (r : RateLimiter × Bool).
        AreSpaced interval last (if r.1 then now ∷ allowed_at r.0 later else allowed_at r.0 later))
      (is_due interval last now)
      (λ d.
        AreSpaced-due interval last now
          (allowed_at (record { interval = interval; last_time = some now }) later) d
          (allowed_at-AreSpaced interval (some now) later))
      (λ _. allowed_at-AreSpaced interval last later)

-- Whenever a new limiter is called, and however the clock moves: of the calls that it allows, each is
-- at least the interval after the one that it allowed before.
pub new_rate_limiter-AreSpaced :
    (interval : ℤ) (times : List ℕ)
    → AreSpaced interval none (allowed_at (new_rate_limiter interval) times)
unfolding new_rate_limiter
new_rate_limiter-AreSpaced interval times = allowed_at-AreSpaced interval none times
