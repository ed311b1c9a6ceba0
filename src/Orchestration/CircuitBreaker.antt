-- ===== src/Orchestration/CircuitBreaker.antt =====
-- services/api/app/orchestration/circuit_breaker.py: a breaker in the process, and the one kept in
-- the database with a breaker in the process beside it. A method returns the new state of the
-- object; `time.time()` is the argument `now`, a whole number of clock ticks.
pub mod Invariant
pub mod Runs
use finance_intelligence.Prelude.{
  ℕ, ◌+◌, ◌-◌, String, Bool, true, false, ◌||◌, Option, none, some, Result, ok, err, leb,
  if◌then◌else◌,
}

-- `class CircuitState`.
pub data CircuitState : Type 0 where
  closed opened half_open : CircuitState

-- `ModelProviderUnavailableException`, by which of its two messages it carries.
pub data ModelProviderUnavailable : Type 0 where
  cooldown_active probe_limit_reached : ModelProviderUnavailable

-- `class ProviderCircuitBreaker`. Its alias appears in messages only.
pub record ProviderCircuitBreaker : Type 0 where
  pub failure_threshold : ℕ
  pub cooldown_seconds : ℕ
  pub half_open_max_probes : ℕ
  pub state : CircuitState
  pub consecutive_failures : ℕ
  pub last_failure_time : ℕ
  pub half_open_probes : ℕ

-- `__init__`.
unfoldable pub new : ℕ → ℕ → ℕ → ProviderCircuitBreaker
new failure_threshold cooldown_seconds half_open_max_probes = record {
  failure_threshold = failure_threshold;
  cooldown_seconds = cooldown_seconds;
  half_open_max_probes = half_open_max_probes;
  state = closed;
  consecutive_failures = 0;
  last_failure_time = 0;
  half_open_probes = 0;
}

abbrev pub Outcome : Type 0
Outcome = ProviderCircuitBreaker × Result ModelProviderUnavailable (Unit {0})

-- The second test of `check_allow_execution`, reached in HALF_OPEN.
probe : ProviderCircuitBreaker → Outcome
probe b =
    if leb b.half_open_max_probes b.half_open_probes
    then (b, err probe_limit_reached)
    else (record b { half_open_probes = b.half_open_probes + 1 }, ok tt)

-- The test of the cooldown, reached in OPEN. `now - last >= cooldown` is over the floats, so a clock
-- that was set back gives a negative left side; the sum says the same over the naturals.
cool_down : ℕ → ProviderCircuitBreaker → Outcome
unfolding probe
cool_down now b =
    if leb (b.last_failure_time + b.cooldown_seconds) now
    then probe (record b { state = half_open; half_open_probes = 0 })
    else (b, err cooldown_active)

by_state : CircuitState → ℕ → ProviderCircuitBreaker → Outcome
unfolding cool_down probe
by_state closed now b = (b, ok tt)
by_state opened now b = cool_down now b
by_state half_open now b = probe b

unfoldable pub check_allow_execution : ℕ → ProviderCircuitBreaker → Outcome
unfolding by_state
check_allow_execution now b = by_state b.state now b

unfoldable pub record_success : ProviderCircuitBreaker → ProviderCircuitBreaker
record_success b = record b { consecutive_failures = 0; half_open_probes = 0; state = closed }

abbrev is_half_open : CircuitState → Bool
is_half_open half_open = true
is_half_open _ = false

-- `self.state == HALF_OPEN or self.consecutive_failures >= self.failure_threshold`.
trip : ProviderCircuitBreaker → ProviderCircuitBreaker
trip b =
    if is_half_open b.state || leb b.failure_threshold b.consecutive_failures
    then record b { state = opened }
    else b

unfoldable pub record_failure : ℕ → Bool → ProviderCircuitBreaker → ProviderCircuitBreaker
unfolding trip
record_failure now is_transient b =
    if is_transient
    then trip
        (record b { consecutive_failures = b.consecutive_failures + 1; last_failure_time = now })
    else b

-- `class DistributedCircuitBreaker`. The keys name the row in the database and are left out.
pub record DistributedCircuitBreaker : Type 0 where
  pub failure_threshold : ℕ
  pub cooldown_seconds : ℕ
  pub local_fallback : ProviderCircuitBreaker

-- `__init__`: the local breaker takes the default of two probes.
unfoldable pub new_distributed : ℕ → ℕ → DistributedCircuitBreaker
unfolding new
new_distributed failure_threshold cooldown_seconds = record {
  failure_threshold = failure_threshold;
  cooldown_seconds = cooldown_seconds;
  local_fallback = new failure_threshold cooldown_seconds 2;
}

-- `row[0] if row else "CLOSED"`; the row is what the database function answered.
abbrev state_of : Option String → String
state_of none = "CLOSED"
state_of (some state) = state

unfoldable pub record_failure_async :
    Option String → ℕ → Bool → DistributedCircuitBreaker → DistributedCircuitBreaker × String
unfolding record_failure
record_failure_async row now is_transient d =
    if is_transient
    then (
      record d { local_fallback = record_failure now is_transient d.local_fallback },
      state_of row,
    )
    else (d, "CLOSED")

unfoldable pub record_success_async :
    Option String → DistributedCircuitBreaker → DistributedCircuitBreaker × String
unfolding record_success
record_success_async row d =
    (record d { local_fallback = record_success d.local_fallback }, state_of row)
