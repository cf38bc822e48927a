-- ===== src/Telemetry/Cardinality/Bound.antt =====
-- The bound on the values of a metric's label.
use gomind.Base.{
  ◌∙◌, not, ◌||◌, ℕ, suc, ◌+◌, ◌≤◌, ◌≡◌, inl, inr, true, false, Option, none, some, List, [], ◌∷◌,
  arith, Bool-cases, All, length, if◌then◌else◌, if_cases, ap,
}
use gomind.Base.Int.{ℤ, pos, leb_ℤ, ◌≤ℤ◌}
use Prim.Native.String.{String, ◌++◌}
use text.Mathlib.Text.{◌==◌}
use gomind.Telemetry.Cardinality.{
  CardinalityLimiter, Values, load, store, loaded_or_new, count_values, is_known, limit_values,
  check_limited, check_and_limit, clean_values, clean_all, cleanup, new_cardinality_limiter,
}

abbrev pub HasAtMost : ℕ → String × Values → Type 0
HasAtMost top e = length e.1 ≤ top

abbrev pub IsWithin : ℕ → String × ℤ → Type 0
IsWithin top e = e.1 ≤ℤ pos top

-- A write to a key that is there leaves the size, and any other adds one at most.
length-store_known :
    (k : String) (a : ℕ) (xs : Values)
    → is_known (load k xs) ≡ true
    → length (store k a xs) ≡ length xs
unfolding store load
length-store_known k a [] h = cc
length-store_known k a ((j, b) ∷ xs) h = ground (arith, length-store_known k a xs)

length-store : (k : String) (a : ℕ) (xs : Values) → length (store k a xs) ≤ suc (length xs)
unfolding store
length-store k a [] = omega arith
length-store k a ((j, b) ∷ xs) = ground (arith, length-store k a xs)

-- Below the limit, the loop has counted all the values.
count_values-length :
    (limit : ℤ) (count : ℕ) (values : Values)
    → leb_ℤ limit (pos (count_values limit count values)) ≡ false
    → count_values limit count values ≡ count + length values
unfolding count_values
count_values-length limit count [] h = omega arith
count_values-length limit count (v ∷ values) h =
    ground (arith, count_values-length limit (suc count) values)

limit_values-length :
    (top : ℕ) (limit : ℤ) (value : String) (now : ℕ) (values : Values)
    → limit ≤ℤ pos top
    → length values ≤ top
    → length (limit_values limit value now values).0 ≤ top
unfolding limit_values
limit_values-length top limit value now values m h =
    let Fits : Values × String → Type 0 = λ r. length r.0 ≤ top in
    if_cases Fits (leb_ℤ limit (pos (count_values limit 0 values)))
      (λ _.
        if_cases Fits (is_known (load value values))
          (λ k. let e = length-store_known value now values k in omega arith) (λ _. h))
      (λ l.
        let e = count_values-length limit 0 values l in
        let s = length-store value now values in ground arith)

load-HasAtMost :
    (top : ℕ) (k : String) (xs : List (String × Values))
    → All (HasAtMost top) xs
    → length (loaded_or_new (load k xs)) ≤ top
unfolding load
load-HasAtMost top k [] h = omega arith
load-HasAtMost top k ((j, b) ∷ xs) h =
    if_cases (λ (o : Option Values). length (loaded_or_new o) ≤ top) (j == k) (λ _. h.0)
      (λ _. load-HasAtMost top k xs h.1)

AllowsAtMost : ℕ → Option ℤ → Type 0
AllowsAtMost top none = Unit
AllowsAtMost top (some limit) = limit ≤ℤ pos top

load-IsWithin :
    (top : ℕ) (k : String) (xs : List (String × ℤ))
    → All (IsWithin top) xs
    → AllowsAtMost top (load k xs)
unfolding load AllowsAtMost
load-IsWithin top k [] h = tt
load-IsWithin top k ((j, b) ∷ xs) h =
    if_cases (AllowsAtMost top) (j == k) (λ _. h.0) (λ _. load-IsWithin top k xs h.1)

store-HasAtMost :
    (top : ℕ) (k : String) (values : Values) (xs : List (String × Values))
    → length values ≤ top
    → All (HasAtMost top) xs
    → All (HasAtMost top) (store k values xs)
unfolding store
store-HasAtMost top k values [] v h = (v, tt)
store-HasAtMost top k values ((j, b) ∷ xs) v h =
    if_cases (All (HasAtMost top)) (j == k) (λ _. (v, h.1))
      (λ _. (h.0, store-HasAtMost top k values xs v h.1))

clean_values-length : (now : ℕ) (values : Values) → length (clean_values now values) ≤ length values
unfolding clean_values
clean_values-length now [] = omega arith
clean_values-length now ((v, at) ∷ values) = ground (arith, clean_values-length now values)

clean_all-HasAtMost :
    (top now : ℕ) (xs : List (String × Values))
    → All (HasAtMost top) xs
    → All (HasAtMost top) (clean_all now xs)
unfolding clean_all
clean_all-HasAtMost top now [] h = tt
clean_all-HasAtMost top now ((k, values) ∷ xs) h =
    let e = clean_values-length now values in
    let m : length values ≤ top = h.0 in ((omega arith), clean_all-HasAtMost top now xs h.1)

-- The calls that change the limiter.
pub data Op : Type 0 where
  checks : String → String → String → Op
  cleans : Op

unfoldable pub step : CardinalityLimiter → ℕ → Op → CardinalityLimiter
unfolding check_and_limit cleanup
step c now (checks metric label value) = (check_and_limit c metric label value now).0
step c now cleans = cleanup c now

unfoldable pub run : CardinalityLimiter → List (ℕ × Op) → CardinalityLimiter
unfolding step
run c [] = c
run c ((now, op) ∷ ops) = run (step c now op) ops

record IsBounded (top : ℕ) (c : CardinalityLimiter) : Type 0 where
  limited : All (IsWithin top) c.limits
  held : All (HasAtMost top) c.seen

check_limited-IsBounded :
    (top : ℕ) (o : Option ℤ) (c : CardinalityLimiter) (key value : String) (now : ℕ)
    → AllowsAtMost top o
    → IsBounded top c
    → IsBounded top (check_limited o c key value now).0
unfolding check_limited AllowsAtMost
check_limited-IsBounded top none c key value now m b = b
check_limited-IsBounded top (some limit) c key value now m b =
    let values = loaded_or_new (load key c.seen) in
    record {
      limited = b.limited;
      held =
          store-HasAtMost top key (limit_values limit value now values).0 c.seen
            (limit_values-length top limit value now values m
              (load-HasAtMost top key c.seen b.held))
            b.held;
    }

step-IsBounded :
    (top : ℕ) (c : CardinalityLimiter) (now : ℕ) (op : Op)
    → IsBounded top c
    → IsBounded top (step c now op)
unfolding step check_and_limit cleanup
step-IsBounded top c now (checks metric label value) b =
    check_limited-IsBounded top (load label c.limits) c (metric ++ ("." ++ label)) value now
      (load-IsWithin top label c.limits b.limited) b
step-IsBounded top c now cleans b = record {
  limited = b.limited;
  held = clean_all-HasAtMost top now c.seen b.held;
}

run-IsBounded :
    (top : ℕ) (c : CardinalityLimiter) (ops : List (ℕ × Op))
    → IsBounded top c
    → IsBounded top (run c ops)
unfolding run
run-IsBounded top c [] b = b
run-IsBounded top c ((now, op) ∷ ops) b =
    run-IsBounded top (step c now op) ops (step-IsBounded top c now op b)

-- Where no limit is more than `top`, a new limiter that has served any checks and cleanups, one after
-- the other, holds at most `top` values under each key.
pub run-HasAtMost :
    (top : ℕ) (limits : List (String × ℤ)) (ops : List (ℕ × Op))
    → All (IsWithin top) limits
    → All (HasAtMost top) (run (new_cardinality_limiter limits) ops).seen
unfolding new_cardinality_limiter
run-HasAtMost top limits ops m =
    (run-IsBounded top (new_cardinality_limiter limits) ops
      (record { limited = m; held = tt })).held

count_values-leb :
    (limit : ℤ) (count : ℕ) (values : Values)
    → leb_ℤ limit (pos (count_values limit count values))
      ≡ leb_ℤ limit (pos (count + length values))
unfolding count_values
count_values-leb limit count [] = ground arith
count_values-leb limit count (v ∷ values) =
    ground (arith, count_values-leb limit (suc count) values)

limit_values-answer :
    (limit : ℤ) (value : String) (now : ℕ) (values : Values)
    → (limit_values limit value now values).1 ≡ (
        if is_known (load value values) || not (leb_ℤ limit (pos (length values)))
        then value
        else "other")
unfolding limit_values
limit_values-answer limit value now values =
    let e = count_values-leb limit 0 values in
    let z : 0 + length values ≡ length values = omega arith in
    elim (Bool-cases (is_known (load value values))) [
      | inl k ↦ elim (Bool-cases (leb_ℤ limit (pos (length values)))) [
        | inl l ↦ ground arith
        | inr l ↦ ground arith
      ]
      | inr k ↦ elim (Bool-cases (leb_ℤ limit (pos (length values)))) [
        | inl l ↦ ground arith
        | inr l ↦ ground arith
      ]
    ]

-- A check of a label with a limit answers with the value itself exactly where the value is known
-- under its key or fewer values than the limit are held there, and with "other" everywhere else.
check_and_limit-answer :
    (limit : ℤ) (c : CardinalityLimiter) (metric label value : String) (now : ℕ)
    → load label c.limits ≡ some limit
    → (check_and_limit c metric label value now).1 ≡ (
        let values = loaded_or_new (load (metric ++ ("." ++ label)) c.seen) in
        if is_known (load value values) || not (leb_ℤ limit (pos (length values)))
        then value
        else "other")
unfolding check_and_limit check_limited
check_and_limit-answer limit c metric label value now e =
    let values = loaded_or_new (load (metric ++ ("." ++ label)) c.seen) in
    ap (λ (o : Option ℤ). (check_limited o c (metric ++ ("." ++ label)) value now).1) e
    ∙ limit_values-answer limit value now values
