-- ===== src/Tests/LimiterRuns.antt =====
-- The cardinality limiter and the rate limiter at concrete inputs.
use gomind.Base.{arith, ℕ, ◌≡◌, refl, none, List, [], ◌∷◌, All}
use gomind.Base.Int.{ℤ, pos, ◌+ℤ◌}
use Prim.Native.String.{String}
use gomind.Telemetry.Cardinality.{
  CardinalityLimiter, new_cardinality_limiter, check_and_limit, current_cardinality,
  max_cardinality,
}
use gomind.Telemetry.Cardinality.Bound.{Op, checks, cleans, run, HasAtMost, run-HasAtMost}
use gomind.Telemetry.RateLimiter.{new_rate_limiter}
use gomind.Telemetry.RateLimiter.Spacing.{allowed_at, AreSpaced, new_rate_limiter-AreSpaced}

abbrev two_users : List (String × ℤ)
two_users = ("user", pos 2) ∷ []

abbrev three_checks : List (ℕ × Op)
three_checks =
    (1, checks "calls" "user" "ann")
    ∷ (2, checks "calls" "user" "bob")
    ∷ (3, checks "calls" "user" "eve")
    ∷ []

abbrev busy : CardinalityLimiter
unfolding run new_cardinality_limiter
busy = run (new_cardinality_limiter two_users) three_checks

-- "eve" is one too many, until the others are cleaned up.
one_too_many :
    ((check_and_limit busy "calls" "user" "eve" 4).1 ≡ "other")
    × ((check_and_limit busy "calls" "user" "ann" 4).1 ≡ "ann")
    × ((check_and_limit busy "calls" "plan" "eve" 4).1 ≡ "eve")
    × (current_cardinality busy ≡ 2)
    × (max_cardinality busy ≡ pos 2)
    × (current_cardinality (run busy ((600_000_000_003, cleans) ∷ [])) ≡ 0)
unfolding busy check_and_limit current_cardinality max_cardinality run ◌+ℤ◌
one_too_many = (refl, refl, refl, refl, refl, refl)

run-HasAtMost_example :
    All (HasAtMost 2) (run (new_cardinality_limiter two_users) three_checks).seen
run-HasAtMost_example = run-HasAtMost 2 two_users three_checks (omega arith, tt)

five_calls : allowed_at (new_rate_limiter (pos 10)) (3 ∷ 8 ∷ 13 ∷ 22 ∷ 40 ∷ []) ≡ 3 ∷ 13 ∷ 40 ∷ []
unfolding allowed_at new_rate_limiter
five_calls = refl

new_rate_limiter-AreSpaced_example :
    AreSpaced (pos 10) none (allowed_at (new_rate_limiter (pos 10)) (3 ∷ 8 ∷ 13 ∷ 22 ∷ 40 ∷ []))
new_rate_limiter-AreSpaced_example = new_rate_limiter-AreSpaced (pos 10) (3 ∷ 8 ∷ 13 ∷ 22 ∷ 40 ∷ [])
