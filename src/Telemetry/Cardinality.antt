-- ===== src/Telemetry/Cardinality.antt =====
-- The cardinality limiter of telemetry/cardinality.go. Its maps are lists of entries, at most one for
-- a key. A call is one step: nothing of another goroutine comes between its parts. Times are
-- nanoseconds since an origin, as the clock gives them.
pub mod Bound
use gomind.Base.{
  ℕ, zero, suc, ◌+◌, Bool, true, false, Option, none, some, List, [], ◌∷◌, if◌then◌else◌, ltb,
  length,
}
use gomind.Base.Int.{ℤ, pos, ltb_ℤ, leb_ℤ, ◌+ℤ◌}
use Prim.Native.String.{String, ◌++◌}
use text.Mathlib.Text.{◌==◌}

-- The values of a label, each with the time of its last use.
abbrev pub Values : Type 0
Values = List (String × ℕ)

pub record CardinalityLimiter : Type 0 where
  pub limits : List (String × ℤ)
  pub seen : List (String × Values)

unfoldable pub new_cardinality_limiter : List (String × ℤ) → CardinalityLimiter
new_cardinality_limiter limits = record { limits = limits; seen = [] }

-- The value of a map at a key.
unfoldable pub load {ℓ} : {A : Type ℓ} → String → List (String × A) → Option A
load k [] = none
load k ((j, a) ∷ rest) = if j == k then some a else load k rest

-- A write to a map.
unfoldable pub store {ℓ} : {A : Type ℓ} → String → A → List (String × A) → List (String × A)
store k a [] = (k, a) ∷ []
store k a ((j, b) ∷ rest) = if j == k then (j, a) ∷ rest else (j, b) ∷ store k a rest

abbrev pub loaded_or_new : Option Values → Values
loaded_or_new none = []
loaded_or_new (some values) = values

-- The count of the loop over the values, which stops at the limit.
unfoldable pub count_values : ℤ → ℕ → Values → ℕ
count_values limit count [] = count
count_values limit count (v ∷ values) =
    let rest = count_values limit (suc count) values in
    if ltb_ℤ (pos (suc count)) limit then rest else suc count

abbrev pub is_known : Option ℕ → Bool
is_known none = false
is_known (some at) = true

-- The end of `CheckAndLimit`: what it returns, and the values of the label then.
unfoldable pub limit_values : ℤ → String → ℕ → Values → Values × String
unfolding count_values load store
limit_values limit value now values =
    if leb_ℤ limit (pos (count_values limit 0 values))
    then (if is_known (load value values)
        then (store value now values, value)
        else (values, "other"))
    else (store value now values, value)

unfoldable pub check_limited :
    Option ℤ → CardinalityLimiter → String → String → ℕ → CardinalityLimiter × String
unfolding limit_values load store
check_limited none c key value now = (c, value)
check_limited (some limit) c key value now =
    let (values, answer) = limit_values limit value now (loaded_or_new (load key c.seen)) in
    (record c { seen = store key values c.seen }, answer)

unfoldable pub check_and_limit :
    CardinalityLimiter → String → String → String → ℕ → CardinalityLimiter × String
unfolding check_limited load
check_and_limit c metric label value now =
    check_limited (load label c.limits) c (metric ++ ("." ++ label)) value now

unfoldable pub current_cardinality : CardinalityLimiter → ℕ
current_cardinality c = total c.seen
  where
    total : List (String × Values) → ℕ
    total [] = 0
    total ((key, values) ∷ rest) = length values + total rest

unfoldable pub sum_limits : List (String × ℤ) → ℤ
unfolding ◌+ℤ◌
sum_limits [] = pos 0
sum_limits ((label, limit) ∷ rest) = limit +ℤ sum_limits rest

unfoldable pub max_cardinality : CardinalityLimiter → ℤ
unfolding sum_limits
max_cardinality c = sum_limits c.limits

-- timeI.Before(cutoff), with the cutoff ten minutes ago
unfoldable pub is_stale : ℕ → ℕ → Bool
is_stale now at = ltb (at + 600_000_000_000) now

unfoldable pub clean_values : ℕ → Values → Values
unfolding is_stale
clean_values now [] = []
clean_values now ((v, at) ∷ rest) =
    let kept = clean_values now rest in if is_stale now at then kept else (v, at) ∷ kept

unfoldable pub clean_all : ℕ → List (String × Values) → List (String × Values)
unfolding clean_values
clean_all now [] = []
clean_all now ((key, values) ∷ rest) = (key, clean_values now values) ∷ clean_all now rest

unfoldable pub cleanup : CardinalityLimiter → ℕ → CardinalityLimiter
unfolding clean_all
cleanup c now = record c { seen = clean_all now c.seen }
