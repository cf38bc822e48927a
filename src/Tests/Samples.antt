-- ===== src/Tests/Samples.antt =====
-- Shared samples: fractions in place of floats, a configuration and a breaker.
use gomind.Base.{ℕ, ◌*◌, ◌/◌, ◌==◌, some, ltb, leb, arith, refl}
use gomind.Base.Int.{pos, pos_part}
use gomind.Base.Float.{Float64}
use gomind.Resilience.Breaker.Config.{Config, default_error_classifier}
use gomind.Resilience.Breaker.Soundness.{IsUsable}

-- Non-negative fractions, as numerator and denominator, for floats.
abbrev pub fractions : Float64
fractions = record {
  Float = ℕ × ℕ;
  of_int = λ z. (pos_part z, 1);
  literal = λ m n. (m, n);
  mul = λ a b. (a.0 * b.0, a.1 * b.1);
  div = λ a b. (a.0 * b.1, a.1 * b.0);
  less = λ a b. ltb (a.0 * b.1) (b.0 * a.1);
  at_most = λ a b. leb (a.0 * b.1) (b.0 * a.1);
  equal = λ a b. a.0 * b.1 == b.0 * a.1;
  trunc = λ a. pos (a.0 / a.1);
}

-- Two buckets of 50 ns, a legacy threshold of 3 failures, two test requests.
abbrev pub sample_config : Config fractions
sample_config = record {
  name = "sample";
  failure_threshold = pos 3;
  recovery_timeout = pos 0;
  error_threshold = (1, 2);
  volume_threshold = pos 10;
  sleep_window = pos 30;
  half_open_requests = pos 2;
  success_threshold = (6, 10);
  window_size = pos 100;
  bucket_count = pos 2;
  error_classifier = some default_error_classifier;
}

pub sample_config-IsUsable : IsUsable fractions sample_config
sample_config-IsUsable = record {
  some_requests = omega arith;
  few_requests = omega arith;
  classifies = tt;
  buckets_fit = (1, 100, refl, refl, omega arith);
}
