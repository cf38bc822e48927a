-- ===== src/Core/Errors.antt =====
-- core/errors.go: the sentinel errors, the structured error, and the classes of errors. An error is
-- what `errors.Is` can see of it: its chain. A nil error is `none` of an `Option Error`.
use gomind.Base.{ℕ, String, Bool, false, ◌||◌, ◌==◌}

-- The package variables, with `context.Canceled` and `context.DeadlineExceeded` of Go's library.
pub data Sentinel : Type 0 where
  agent_not_found agent_not_ready agent_already_exists : Sentinel
  capability_not_found capability_not_enabled : Sentinel
  service_not_found discovery_unavailable : Sentinel
  invalid_configuration missing_configuration port_out_of_range : Sentinel
  already_started not_initialized already_registered : Sentinel
  timeout context_canceled max_retries_exceeded : Sentinel
  connection_failed request_failed : Sentinel
  circuit_breaker_open ai_operation_failed stream_partially_completed : Sentinel
  go_canceled go_deadline_exceeded : Sentinel

-- Each sentinel is a pointer of its own: comparing pointers is comparing these numbers.
abbrev pub address : Sentinel → ℕ
address agent_not_found = 0
address agent_not_ready = 1
address agent_already_exists = 2
address capability_not_found = 3
address capability_not_enabled = 4
address service_not_found = 5
address discovery_unavailable = 6
address invalid_configuration = 7
address missing_configuration = 8
address port_out_of_range = 9
address already_started = 10
address not_initialized = 11
address already_registered = 12
address timeout = 13
address context_canceled = 14
address max_retries_exceeded = 15
address connection_failed = 16
address request_failed = 17
address circuit_breaker_open = 18
address ai_operation_failed = 19
address stream_partially_completed = 20
address go_canceled = 21
address go_deadline_exceeded = 22

-- An error is a sentinel, one made by `errors.New` or by `fmt.Errorf` without `%w`, one wrapped by
-- `fmt.Errorf` with `%w`, or a `*FrameworkError`, whose `Err` may be nil.
pub data Error : Type 0 where
  sentinel : Sentinel → Error
  plain : String → Error
  wrapped : String → Error → Error
  framework : String → String → String → Error → Error
  framework_nil : String → String → String → Error

-- errors.Is(err, target), through `Unwrap`
unfoldable pub is : Error → Sentinel → Bool
is (sentinel s) target = address s == address target
is (plain text) target = false
is (wrapped text err) target = is err target
is (framework op kind message err) target = is err target
is (framework_nil op kind message) target = false

unfoldable pub is_retryable : Error → Bool
unfolding is
is_retryable err =
    is err discovery_unavailable
    || is err timeout
    || is err connection_failed
    || is err service_not_found
    || is err circuit_breaker_open

unfoldable pub is_not_found : Error → Bool
unfolding is
is_not_found err = is err agent_not_found || is err capability_not_found || is err service_not_found

unfoldable pub is_configuration_error : Error → Bool
unfolding is
is_configuration_error err = is err invalid_configuration || is err missing_configuration

unfoldable pub is_state_error : Error → Bool
unfolding is
is_state_error err =
    is err already_started
    || is err not_initialized
    || is err already_registered
    || is err agent_not_ready
