-- ===== src/Orchestration/Engine/Backoff.antt =====
-- The waits between the calls of a step, against arithmetic without bounds.
use gomind.Base.{
  sym, ℕ, zero, suc, ◌+◌, ◌*◌, ◌/◌, ◌^◌, ◌≤◌, ◌<◌, ◌≡◌, inl, inr, true, false, some, arith, ap, ◌∙◌,
  Bool-cases, ltb, ltb→lt, if◌then◌else◌,
}
use gomind.Base.Int.{◌+ℤ◌, ℤ, pos, ltb_ℤ, ◌≤ℤ◌, ◌*ℤ◌, i64, i64_in_range}
use gomind.Orchestration.Engine.{
  BackoffType, RetryConfig, exponential, clamped_shift, at_most_wait, exponential_wait, wait_of,
  calculate_backoff,
}
use native.Mathlib.Nat.{mul-le-mul_left, mul-div-le, lt-mul-div-succ}

-- The largest `int64`.
abbrev max_int : ℕ
max_int = 9223372036854775807

mul_pos : (i m : ℕ) → pos i *ℤ pos m ≡ pos (i * m)
unfolding ◌*ℤ◌
mul_pos i m = ground arith

no_wrap : (i m : ℕ) → i * m ≤ max_int → i64 (pos i *ℤ pos m) ≡ pos (i * m)
no_wrap i m h = ap i64 (mul_pos i m) ∙ i64_in_range (pos (i * m)) (omega arith) (omega arith)

at_most_wait_over :
    (max_wait wait : ℤ) → ltb_ℤ max_wait wait ≡ true → at_most_wait max_wait wait ≡ max_wait
unfolding at_most_wait
at_most_wait_over max_wait wait h = rw h

over_limit : (i m : ℕ) → ltb (max_int / suc i) m ≡ true → max_int < suc i * m
over_limit i m h =
    let l = ltb→lt (max_int / suc i) m h in
    let s : max_int < suc i * (max_int / suc i + 1) = lt-mul-div-succ max_int (omega arith) in
    let t : suc i * (max_int / suc i + 1) ≤ suc i * m = mul-le-mul_left (suc i) (omega arith) in
    omega arith

under_limit : (i m : ℕ) → ltb (max_int / suc i) m ≡ false → suc i * m ≤ max_int
under_limit i m h =
    let l : m ≤ max_int / suc i = ground arith in
    let s : suc i * (max_int / suc i) ≤ max_int = mul-div-le max_int (suc i) in
    let t : suc i * m ≤ suc i * (max_int / suc i) = mul-le-mul_left (suc i) l in omega arith

-- The product that the code computes with a guard is the one without bounds, cut off.
exponential_wait_lem :
    (i m : ℕ) (max_wait : ℤ)
    → max_wait ≤ℤ pos max_int
    → exponential_wait (pos i) max_wait m ≡ at_most_wait max_wait (pos (i * m))
unfolding exponential_wait
exponential_wait_lem zero m max_wait b = ap (at_most_wait max_wait) (no_wrap 0 m (omega arith))
exponential_wait_lem (suc i) m max_wait b =
    let p : ltb_ℤ (pos 0) (pos (suc i)) ≡ true = ground arith in
    elim (Bool-cases (ltb (max_int / suc i) m)) [
      | inl over ↦
          let l = over_limit i m over in
          rw (p, over) (sym (at_most_wait_over max_wait (pos (suc i * m)) (ground arith)))
      | inr under ↦
          rw (p, under) (ap (at_most_wait max_wait) (no_wrap (suc i) m (under_limit i m under)))
    ]

clamped_shift_lem : (n : ℕ) → clamped_shift (pos (suc n)) ≡ (if ltb 30 n then 30 else n)
unfolding clamped_shift ◌+ℤ◌
clamped_shift_lem n = ground arith

-- With exponential backoff, a wait that is not negative and a longest wait that an `int64` can hold,
-- the wait after the failure of attempt `n + 1` is the first wait, doubled `n` times but at most 30
-- times, and at most the longest wait: computed without overflow, whatever the numbers are.
pub calculate_backoff-exponential :
    (retry : RetryConfig) (i n : ℕ)
    → retry.backoff ≡ exponential
    → retry.initial_wait ≡ pos i
    → retry.max_wait ≤ℤ pos 9223372036854775807
    → calculate_backoff (some retry) (pos (suc n))
      ≡ at_most_wait retry.max_wait (pos (i * 2 ^ (if ltb 30 n then 30 else n)))
unfolding calculate_backoff
calculate_backoff-exponential retry i n kind first b =
    ap (λ (k : BackoffType). wait_of k retry.initial_wait retry.max_wait (pos (suc n))) kind
    ∙ ap (λ (w : ℤ). exponential_wait w retry.max_wait (2 ^ clamped_shift (pos (suc n)))) first
    ∙ exponential_wait_lem i (2 ^ clamped_shift (pos (suc n))) retry.max_wait b
    ∙ ap (λ (k : ℕ). at_most_wait retry.max_wait (pos (i * 2 ^ k))) (clamped_shift_lem n)
