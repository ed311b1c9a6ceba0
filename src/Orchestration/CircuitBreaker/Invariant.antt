-- ===== src/Orchestration/CircuitBreaker/Invariant.antt =====
-- What holds of a breaker between two calls.
use finance_intelligence.Prelude.{ℕ, ◌≤◌, ◌<◌, ◌≡◌, Bool, arith}
use finance_intelligence.Orchestration.CircuitBreaker.{
  ProviderCircuitBreaker, closed, new, check_allow_execution, record_success, record_failure,
}

-- The failures in a row stay below the threshold while the breaker is closed, and the probes under
-- way never pass their limit.
pub record IsSound (b : ProviderCircuitBreaker) : Type 0 where
  pub below : b.state ≡ closed → b.consecutive_failures < b.failure_threshold
  pub probes : b.half_open_probes ≤ b.half_open_max_probes

pub new-IsSound :
    (threshold cooldown max_probes : ℕ)
    → 0 < threshold
    → IsSound (new threshold cooldown max_probes)
unfolding new
new-IsSound threshold cooldown max_probes h = ground arith

pub check_allow_execution-IsSound :
    (now : ℕ) (b : ProviderCircuitBreaker) → IsSound b → IsSound (check_allow_execution now b).0
unfolding check_allow_execution
check_allow_execution-IsSound now b h = ground arith

pub record_success-IsSound :
    (b : ProviderCircuitBreaker) → 0 < b.failure_threshold → IsSound (record_success b)
unfolding record_success
record_success-IsSound b h = ground arith

pub record_failure-IsSound :
    (now : ℕ) (is_transient : Bool) (b : ProviderCircuitBreaker)
    → IsSound b
    → IsSound (record_failure now is_transient b)
unfolding record_failure
record_failure-IsSound now is_transient b h = ground arith
