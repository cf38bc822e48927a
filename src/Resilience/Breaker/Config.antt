-- ===== src/Resilience/Breaker/Config.antt =====
-- The configuration of a circuit breaker and its validation. An `int` or a `time.Duration` is an
-- integer, a `float64` is a value of the interface `Float64`. The logger and the metrics collector
-- are left out: what the collector is told is in the breaker's list of events.
use gomind.Base.{String, Bool, false, not, ◌||◌, Option, none, some, if◌then◌else◌}
use gomind.Base.Int.{ℤ, pos, ltb_ℤ, eqb_ℤ}
use gomind.Base.Float.{Float64}
use gomind.Core.Errors.{
  Error, is, is_configuration_error, is_not_found, is_state_error, context_canceled, go_canceled,
}
use text.Mathlib.Text.{◌==◌ as str_eq}

pub data CircuitState : Type 0 where
  state_closed state_open state_half_open : CircuitState

-- CircuitState.String
unfoldable pub state_string : CircuitState → String
state_string state_closed = "closed"
state_string state_open = "open"
state_string state_half_open = "half-open"

unfoldable pub default_error_classifier : Option Error → Bool
unfolding is_configuration_error is_not_found is_state_error is
default_error_classifier none = false
default_error_classifier (some err) =
    if is_configuration_error err
    then false
    else if is_not_found err
    then false
    else if is_state_error err
    then false
    else not (is err go_canceled || is err context_canceled)

-- The errors of `Validate`.
pub data ConfigError : Type 0 where
  name_required bad_error_threshold bad_volume_threshold bad_success_threshold : ConfigError
  bad_half_open_requests bad_sleep_window bad_window_size bad_bucket_count : ConfigError

pub data Result {ℓ κ} (E : Type ℓ) (A : Type κ) : Type (ℓ ⊔ κ) where
  ok : A → Result E A
  err : E → Result E A

module _ (F : Float64) where
  open F use {Float, literal, less, equal}

  pub record Config : Type 0 where
    pub name : String
    pub failure_threshold : ℤ
    pub recovery_timeout : ℤ
    pub error_threshold : Float
    pub volume_threshold : ℤ
    pub sleep_window : ℤ
    pub half_open_requests : ℤ
    pub success_threshold : Float
    pub window_size : ℤ
    pub bucket_count : ℤ
    pub error_classifier : Option (Option Error → Bool)

  unfoldable pub default_config : Config
  default_config = record {
    name = "default";
    failure_threshold = pos 0;
    recovery_timeout = pos 0;
    error_threshold = literal 5 10;
    volume_threshold = pos 10;
    sleep_window = pos 30_000_000_000;
    half_open_requests = pos 5;
    success_threshold = literal 6 10;
    window_size = pos 60_000_000_000;
    bucket_count = pos 10;
    error_classifier = some default_error_classifier;
  }

  -- f < 0 || f > 1
  abbrev pub out_of_unit : Float → Bool
  out_of_unit f = less f (literal 0 1) || less (literal 1 1) f

  -- Validate; `none` is a nil error.
  unfoldable pub validate : Config → Option ConfigError
  validate c =
      if str_eq c.name ""
      then some name_required
      else if out_of_unit c.error_threshold
      then some bad_error_threshold
      else if ltb_ℤ c.volume_threshold (pos 0)
      then some bad_volume_threshold
      else if out_of_unit c.success_threshold
      then some bad_success_threshold
      else if ltb_ℤ c.half_open_requests (pos 1)
      then some bad_half_open_requests
      else if ltb_ℤ c.sleep_window (pos 0)
      then some bad_sleep_window
      else if ltb_ℤ c.window_size (pos 0)
      then some bad_window_size
      else if ltb_ℤ c.bucket_count (pos 1)
      then some bad_bucket_count
      else none

  abbrev pub classifier_or_default : Option (Option Error → Bool) → Option (Option Error → Bool)
  classifier_or_default none = some default_error_classifier
  classifier_or_default (some f) = some f

  -- The defaults that `NewCircuitBreaker` puts in after validation.
  unfoldable pub apply_defaults : Config → Config
  apply_defaults c = record c {
    window_size = if eqb_ℤ c.window_size (pos 0) then pos 60_000_000_000 else c.window_size;
    bucket_count = if eqb_ℤ c.bucket_count (pos 0) then pos 10 else c.bucket_count;
    error_classifier = classifier_or_default c.error_classifier;
    success_threshold =
        if equal c.success_threshold (literal 0 1) then literal 6 10 else c.success_threshold;
    half_open_requests = if eqb_ℤ c.half_open_requests (pos 0) then pos 5 else c.half_open_requests;
  }
