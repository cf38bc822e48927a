-- ===== src/Resilience/Breaker/Construction.antt =====
-- What `NewCircuitBreaker` accepts and what it makes of it.
use gomind.Resilience.Window
use gomind.Resilience.Window.{new_sliding_window}
use gomind.Resilience.Window.Recording.{short_window_lem}
use gomind.Resilience.Breaker.Evaluation.{
  complete_execution, record_outcome, count_success, release_token,
}
use gomind.Resilience.Breaker.Execution.{
  execute_with_timeout, begin_execute, start_execution, start_execution_calls, start_in,
  admit_closed, count_start, finish_execute, done_first, returned, sent_error,
}
use gomind.Base.{suc, true, ◌<◌, ◌≤◌, ◌∙◌, ap, ℕ, ◌≡◌, refl, Option, none, some, arith}
use gomind.Base.Int.{pos, ◌≤ℤ◌}
use gomind.Base.Float.{Float64}
use gomind.Resilience.Breaker.Config.{
  Config, ok, validate, apply_defaults, state_closed, ConfigError,
}
use gomind.Resilience.Breaker.State.{CircuitBreaker, create, create_if_valid, new_circuit_breaker}

module _ (F : Float64) where
  -- What validation says of the integers of a configuration.
  record InRange (c : Config F) : Type 0 where
    requests : pos 1 ≤ℤ c.half_open_requests
    buckets : pos 1 ≤ℤ c.bucket_count

  validate-InRange : (c : Config F) → validate F c ≡ none → InRange c
  unfolding validate
  validate-InRange c h = ground arith

  defaults_keep :
      (c : Config F)
      → InRange c
      → ((apply_defaults F c).bucket_count ≡ c.bucket_count)
        × ((apply_defaults F c).half_open_requests ≡ c.half_open_requests)
  unfolding apply_defaults
  defaults_keep c r = (ground arith, ground arith)

  made :
      (c : Config F) (now : ℕ) (cb : CircuitBreaker F) (v : Option ConfigError)
      → create_if_valid F c now v ≡ ok cb
      → (v ≡ none) × (create F (apply_defaults F c) now ≡ cb)
  made c now cb none h = (refl, ground arith)
  made c now cb (some e) h = cc

  -- A breaker that is made from a configuration is closed, and has the configuration's bucket count
  -- and number of test requests, which are at least 1: of the defaults that the constructor puts in,
  -- those for a bucket count or a number of test requests of 0 never apply.
  pub new_circuit_breaker-keeps :
      (c : Config F) (now : ℕ) (cb : CircuitBreaker F)
      → new_circuit_breaker F (some c) now ≡ ok cb
      → (cb.state ≡ state_closed)
        × (cb.config.bucket_count ≡ c.bucket_count)
        × (cb.config.half_open_requests ≡ c.half_open_requests)
        × (pos 1 ≤ℤ c.bucket_count)
        × (pos 1 ≤ℤ c.half_open_requests)
  unfolding new_circuit_breaker
  new_circuit_breaker-keeps c now cb h =
      let (valid, same) = made c now cb (validate F c) h in
      let r = validate-InRange c valid in
      let (b, q) = defaults_keep c r in
      rw (← same) (unfold create in (refl, b, q, r.buckets, r.requests))

  window_kept :
      (c : Config F) (size : ℕ)
      → c.window_size ≡ pos (suc size)
      → (apply_defaults F c).window_size ≡ pos (suc size)
  unfolding apply_defaults
  window_kept c size h = ground arith

  -- The first success of a breaker whose window panics at it.
  first_success :
      (c : Config F) (now started ended : ℕ)
      → Window.record_success (new_sliding_window c.window_size c.bucket_count true now) ended
        ≡ none
      → execute_with_timeout F (create F c now) (done_first (returned none)) started ended ≡ none
  unfolding execute_with_timeout begin_execute start_execution start_execution_calls start_in
      admit_closed count_start finish_execute sent_error create complete_execution record_outcome
      count_success release_token
  first_success c now started ended h = rw h refl

  -- A configuration that the validation accepts and whose window, not 0, is shorter in nanoseconds
  -- than its number of buckets: the constructor makes a breaker of it, and the first request to that
  -- breaker panics when its function succeeds, where the clock does not run backwards.
  pub short_window_panics :
      (c : Config F) (size n now started ended : ℕ)
      → validate F c ≡ none
      → c.window_size ≡ pos (suc size)
      → c.bucket_count ≡ pos (suc n)
      → suc size < suc n
      → now ≤ ended
      → (cb : CircuitBreaker F) × (new_circuit_breaker F (some c) now ≡ ok cb)
        × (execute_with_timeout F cb (done_first (returned none)) started ended ≡ none)
  unfolding new_circuit_breaker
  short_window_panics c size n now started ended valid window buckets short later =
      let kept = (defaults_keep c (validate-InRange c valid)).0 ∙ buckets in
      (
        create F (apply_defaults F c) now,
        ap (create_if_valid F c now) valid,
        first_success (apply_defaults F c) now started ended (
            rw (window_kept c size window)
              (rw kept (short_window_lem (suc size) n now ended short later))),
      )
