-- ===== src/Resilience/Breaker/State.antt =====
-- The state of a circuit breaker, its construction, and `transitionToUnlocked`. Each operation is
-- one step, at one reading `now` of the clock; the histories of a breaker are sequences of steps.
use gomind.Base.{
  ℕ, ◌+◌, String, Bool, true, false, Option, none, some, List, [], ◌∷◌, ◌++◌, map, if◌then◌else◌,
}
use gomind.Base.Int.{ℤ, pos, u64}
use gomind.Base.Float.{Float64}
use gomind.Resilience.Window.{SlidingWindow, new_sliding_window}
use gomind.Resilience.Breaker.Config.{
  CircuitState, state_closed, state_open, state_half_open, state_string, Config, ConfigError,
  Result, ok, err, default_config, validate, apply_defaults,
}

pub record ExecutionToken : Type 0 where
  pub id : ℕ
  pub start_time : ℕ
  pub is_half_open : Bool

-- ExecutionToken{}
abbrev pub zero_token : ExecutionToken
zero_token = record { id = 0; start_time = 0; is_half_open = false }

-- What the metrics collector and the listeners are told, newest first.
pub data Event : Type 0 where
  recorded_success recorded_failure recorded_rejection : Event
  recorded_state_change : CircuitState → CircuitState → Event
  notified : ℕ → CircuitState → CircuitState → Event

abbrev pub same_state : CircuitState → CircuitState → Bool
same_state state_closed state_closed = true
same_state state_open state_open = true
same_state state_half_open state_half_open = true
same_state _ _ = false

module _ (F : Float64) where
  -- A listener is known by its number.
  pub record CircuitBreaker : Type 0 where
    pub config : Config F
    pub state : CircuitState
    pub state_changed_at : ℕ
    pub generation : ℕ  -- uint64
    pub window : SlidingWindow
    pub half_open_count : ℤ  -- int32
    pub half_open_total : ℤ  -- int32
    pub half_open_successes : ℤ  -- int32
    pub half_open_failures : ℤ  -- int32
    pub half_open_tokens : List ExecutionToken
    pub token_counter : ℕ  -- uint64
    pub force_open : Bool
    pub force_closed : Bool
    pub failure_count : ℤ  -- int32
    pub listeners : List ℕ
    pub executions_in_flight : ℤ  -- int32
    pub total_executions : ℕ  -- uint64
    pub rejected_executions : ℕ  -- uint64
    pub events : List Event

  unfoldable pub create : Config F → ℕ → CircuitBreaker
  create c now = record {
    config = c;
    state = state_closed;
    state_changed_at = now;
    generation = 0;
    window = new_sliding_window c.window_size c.bucket_count true now;
    half_open_count = pos 0;
    half_open_total = pos 0;
    half_open_successes = pos 0;
    half_open_failures = pos 0;
    half_open_tokens = [];
    token_counter = 0;
    force_open = false;
    force_closed = false;
    failure_count = pos 0;
    listeners = [];
    executions_in_flight = pos 0;
    total_executions = 0;
    rejected_executions = 0;
    events = [];
  }

  abbrev pub create_if_valid : Config F → ℕ → Option ConfigError → Result ConfigError CircuitBreaker
  create_if_valid c now (some e) = err e
  create_if_valid c now none = ok (create (apply_defaults F c) now)

  abbrev config_or_default : Option (Config F) → Config F
  config_or_default none = default_config F
  config_or_default (some c) = c

  unfoldable pub new_circuit_breaker : Option (Config F) → ℕ → Result ConfigError CircuitBreaker
  unfolding validate apply_defaults create
  new_circuit_breaker config now =
      let c = config_or_default config in create_if_valid c now (validate F c)

  abbrev pub reset_half_open : CircuitState → CircuitBreaker → CircuitBreaker
  reset_half_open state_half_open cb = record cb {
    half_open_count = pos 0;
    half_open_total = pos 0;
    half_open_successes = pos 0;
    half_open_failures = pos 0;
    half_open_tokens = [];
  }
  reset_half_open _ cb = cb

  abbrev pub notifications : List ℕ → CircuitState → CircuitState → List Event
  notifications ls from to = map (λ l. notified l from to) ls

  unfoldable pub transition_to_unlocked : CircuitBreaker → CircuitState → ℕ → CircuitBreaker
  transition_to_unlocked cb new_state now =
      if same_state cb.state new_state
      then cb
      else reset_half_open new_state (record cb {
        state = new_state;
        state_changed_at = now;
        generation = u64 (cb.generation + 1);
        events =
            notifications cb.listeners cb.state new_state
            ++ recorded_state_change cb.state new_state ∷ cb.events;
      })

  unfoldable pub add_state_change_listener : CircuitBreaker → ℕ → CircuitBreaker
  add_state_change_listener cb listener = record cb { listeners = cb.listeners ++ listener ∷ [] }

  unfoldable pub get_state : CircuitBreaker → String
  get_state cb = state_string cb.state
