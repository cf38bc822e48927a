-- ===== src/Tests/WindowRuns.antt =====
-- The sliding window at concrete inputs.
use gomind.Base.{◌≡◌, refl, true, some, [], ◌∷◌, arith}
use gomind.Base.Int.{pos, quo, u64, ◌-ℤ◌}
use gomind.Resilience.Window.{
  SlidingWindow, new_sliding_window, rotate_buckets, record_success, record_failure, clear_next,
  get_total, fresh,
}
use gomind.Resilience.Window.Shape.{IsValid, Keeps}
use gomind.Resilience.Window.Recording.{new_sliding_window-IsValid, record_success-Keeps}
use gomind.Resilience.Window.Counting.{
  CountsGrow, get_counts-record_success, get_counts-record_failure,
}
use gomind.Base.Panic.{◌>>=◌, Returns}

-- Four buckets of 25 ns.
abbrev new_window : SlidingWindow
new_window = new_sliding_window (pos 100) (pos 4) true 0

new_window-IsValid : IsValid new_window
new_window-IsValid = new_sliding_window-IsValid 100 3 0 true (omega arith)

-- The first success is forgotten after 100 ns, the failure is not.
forgets :
    Returns
      (λ sw. get_total sw 130 ≡ 1)
      (record_success new_window 10 >>= λ sw. record_failure sw 60)
unfolding new_sliding_window record_success record_failure get_total clear_next quo u64 ◌-ℤ◌
    rotate_buckets
forgets = refl

record_success-Keeps_example : Keeps new_window (record_success new_window 10)
record_success-Keeps_example = record_success-Keeps new_window 10 new_window-IsValid

get_counts-record_success_example :
    (r : SlidingWindow) × (sw' : SlidingWindow) × (rotate_buckets new_window 10 ≡ some r)
    × (record_success new_window 10 ≡ some sw')
    × CountsGrow 10 r sw' 1 0
get_counts-record_success_example = get_counts-record_success new_window 10 new_window-IsValid

get_counts-record_failure_example :
    (r : SlidingWindow) × (sw' : SlidingWindow) × (rotate_buckets new_window 10 ≡ some r)
    × (record_failure new_window 10 ≡ some sw')
    × CountsGrow 10 r sw' 0 1
get_counts-record_failure_example = get_counts-record_failure new_window 10 new_window-IsValid

abbrev counted : SlidingWindow
counted = record new_window {
  buckets = record { timestamp = 0; success = 7; failure = 2 } ∷ fresh 0 ∷ fresh 0 ∷ fresh 0 ∷ [];
}

counted-IsValid : IsValid counted
unfolding new_sliding_window quo
counted-IsValid = record {
  in_ring = omega arith;
  size_pos = omega arith;
  size_fits = omega arith;
  past = omega arith;
  current = (record { timestamp = 0; success = 7; failure = 2 }, refl, refl);
}
