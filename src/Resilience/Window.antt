-- ===== src/Resilience/Window.antt =====
-- The sliding window of resilience/circuit_breaker.go. Times are in nanoseconds since a fixed
-- origin, and the readings of the clock that one operation makes are one reading. `none` is a panic
-- of Go's runtime: a division by zero or an index out of range.
pub mod Shape
pub mod Recording
pub mod Counting
use Prim.Native.Nat.{min}
use gomind.Base.{
  ℕ, zero, suc, ◌+◌, ◌/◌, ◌%◌, Bool, if◌then◌else◌, Option, none, some, List, [], ◌∷◌, length,
  get_elem?, set, map, replicate, ◌==◌,
}
use gomind.Base.Int.{ℤ, pos, negsuc, sub_ℕ, ◌-ℤ◌, ltb_ℤ, leb_ℤ, quo, u64}
use gomind.Base.Float.{Float64}

pub record Bucket : Type 0 where
  pub timestamp : ℕ
  pub success : ℕ  -- uint64
  pub failure : ℕ  -- uint64

pub record SlidingWindow : Type 0 where
  pub buckets : List Bucket
  pub window_size : ℤ
  pub bucket_size : ℤ
  pub current_idx : ℕ
  pub last_rotation : ℕ
  pub monotonic : Bool

abbrev pub fresh : ℕ → Bucket
fresh now = record { timestamp = now; success = 0; failure = 0 }

-- The bucket count is positive, or becomes 10.
abbrev pub count_or_default : ℤ → ℕ
count_or_default (pos (suc n)) = suc n
count_or_default _ = 10

unfoldable pub new_sliding_window : ℤ → ℤ → Bool → ℕ → SlidingWindow
unfolding quo
new_sliding_window window_size bucket_count monotonic now = record {
  buckets = replicate (count_or_default bucket_count) (fresh now);
  window_size = window_size;
  bucket_size = quo window_size (count_or_default bucket_count);
  current_idx = 0;
  last_rotation = now;
  monotonic = monotonic;
}

-- The body of the loop over `i` of `rotateBuckets`: it moves on to the next bucket and clears it.
unfoldable pub clear_one : ℕ → SlidingWindow → SlidingWindow
clear_one now sw =
    let idx = (sw.current_idx + 1) % length sw.buckets in
    record sw { current_idx = idx; buckets = set sw.buckets idx (fresh now) }

unfoldable pub clear_next : ℕ → ℕ → SlidingWindow → SlidingWindow
unfolding clear_one
clear_next zero now sw = sw
clear_next (suc rounds) now sw = clear_next rounds now (clear_one now sw)

-- int(elapsed / bucketSize), where it counts rounds of that loop; a negative quotient makes none.
unfoldable pub rounds_due : ℕ → ℤ → Option ℕ
rounds_due elapsed (pos zero) = none
rounds_due elapsed (pos (suc size)) = some (elapsed / suc size)
rounds_due elapsed (negsuc size) = some 0

unfoldable pub reset : SlidingWindow → ℕ → SlidingWindow
reset sw now = record sw {
  buckets = map (λ _. fresh now) sw.buckets;
  current_idx = 0;
  last_rotation = now;
}

-- now.Sub(sw.lastRotation), or the age of the current bucket
unfoldable pub elapsed_since : SlidingWindow → ℕ → Option ℤ
elapsed_since sw now =
    if sw.monotonic
    then some (sub_ℕ now sw.last_rotation)
    else elim (get_elem? sw.buckets sw.current_idx) [
      | none ↦ none
      | some b ↦ some (sub_ℕ now b.timestamp)
    ]

unfoldable pub rotate_by : SlidingWindow → ℕ → Option ℕ → Option SlidingWindow
rotate_by sw now none = none
rotate_by sw now (some due) =
    some (record (clear_next (min due (length sw.buckets)) now sw) { last_rotation = now })

unfoldable pub rotate_elapsed : SlidingWindow → ℕ → Option ℤ → Option SlidingWindow
unfolding reset rotate_by rounds_due
rotate_elapsed sw now none = none
rotate_elapsed sw now (some (negsuc n)) = some (reset sw now)
rotate_elapsed sw now (some (pos elapsed)) =
    if leb_ℤ sw.bucket_size (pos elapsed)
    then rotate_by sw now (rounds_due elapsed sw.bucket_size)
    else some sw

unfoldable pub rotate_buckets : SlidingWindow → ℕ → Option SlidingWindow
unfolding elapsed_since rotate_elapsed
rotate_buckets sw now = rotate_elapsed sw now (elapsed_since sw now)

abbrev pub add_success : Bucket → Bucket
add_success b = record b { success = u64 (b.success + 1) }

abbrev pub add_failure : Bucket → Bucket
add_failure b = record b { failure = u64 (b.failure + 1) }

-- An update of the current bucket.
unfoldable pub at_current : (Bucket → Bucket) → SlidingWindow → Option SlidingWindow
at_current f sw = elim (get_elem? sw.buckets sw.current_idx) [
  | none ↦ none
  | some b ↦ some (record sw { buckets = set sw.buckets sw.current_idx (f b) })
]

unfoldable pub after_rotation : (Bucket → Bucket) → Option SlidingWindow → Option SlidingWindow
unfolding at_current
after_rotation f none = none
after_rotation f (some sw) = at_current f sw

unfoldable pub record_success : SlidingWindow → ℕ → Option SlidingWindow
unfolding after_rotation
record_success sw now = after_rotation add_success (rotate_buckets sw now)

unfoldable pub record_failure : SlidingWindow → ℕ → Option SlidingWindow
unfolding after_rotation
record_failure sw now = after_rotation add_failure (rotate_buckets sw now)

pub record Counts : Type 0 where
  pub successes : ℕ
  pub failures : ℕ

-- b.timestamp.After(cutoff)
abbrev pub in_window : ℤ → ℕ → Bucket → Bool
in_window window_size now b = ltb_ℤ (pos now -ℤ window_size) (pos b.timestamp)

-- The loop of `GetCounts` with its two sums.
unfoldable pub count_from : ℤ → ℕ → Counts → List Bucket → Counts
count_from window_size now c [] = c
count_from window_size now c (b ∷ bs) =
    count_from window_size now
      (if in_window window_size now b
        then record {
          successes = u64 (c.successes + b.success);
          failures = u64 (c.failures + b.failure);
        }
        else c)
      bs

unfoldable pub get_counts : SlidingWindow → ℕ → Counts
unfolding count_from
get_counts sw now =
    count_from sw.window_size now (record { successes = 0; failures = 0 }) sw.buckets

unfoldable pub get_total : SlidingWindow → ℕ → ℕ
unfolding get_counts
get_total sw now = let c = get_counts sw now in u64 (c.successes + c.failures)

module _ (F : Float64) where
  open F use {Float, of_int, literal, div}

  unfoldable pub get_error_rate : SlidingWindow → ℕ → Float
  unfolding get_counts
  get_error_rate sw now =
      let c = get_counts sw now in
      let total = u64 (c.successes + c.failures) in
      if total == 0 then literal 0 1 else div (of_int (pos c.failures)) (of_int (pos total))
