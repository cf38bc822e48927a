-- ===== src/Telemetry/RateLimiter.antt =====
-- The rate limiter of telemetry/ratelimiter.go. Times are nanoseconds since an origin.
pub mod Spacing
use gomind.Base.{ℕ, Bool, true, false, Option, none, some, if◌then◌else◌}
use gomind.Base.Int.{ℤ, sub_ℕ, leb_ℤ}

-- `last_time` is none for the zero time, which lies further back than any interval: `Sub` answers
-- with the longest duration that there is.
pub record RateLimiter : Type 0 where
  pub interval : ℤ
  pub last_time : Option ℕ

unfoldable pub new_rate_limiter : ℤ → RateLimiter
new_rate_limiter interval = record { interval = interval; last_time = none }

-- now.Sub(r.lastTime) >= r.interval
unfoldable pub is_due : ℤ → Option ℕ → ℕ → Bool
is_due interval none now = true
is_due interval (some last) now = leb_ℤ interval (sub_ℕ now last)

unfoldable pub allow : RateLimiter → ℕ → RateLimiter × Bool
unfolding is_due
allow r now =
    if is_due r.interval r.last_time now
    then (record r { last_time = some now }, true)
    else (r, false)
