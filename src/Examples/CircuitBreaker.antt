-- ===== src/Examples/CircuitBreaker.antt =====
-- services/api/app/orchestration/circuit_breaker.py: the default breaker trips and recovers.

use finance_intelligence.Prelude.{List, [], arith, false, refl, true, ◌∷◌, ◌≡◌}
use finance_intelligence.Orchestration.CircuitBreaker.Runs.{
  failure, run, half_open_stuck, check, call, Call, run-IsSound,
}
use finance_intelligence.Orchestration.CircuitBreaker.Invariant.{new-IsSound, IsSound}
use finance_intelligence.Orchestration.CircuitBreaker.{
  half_open, record_failure, new, ProviderCircuitBreaker, opened, check_allow_execution,
}

abbrev breaker : ProviderCircuitBreaker
breaker = new 5 60 2

abbrev calls : List Call
calls =
    check 1
    ∷ failure 1 true
    ∷ failure 2 true
    ∷ failure 3 true
    ∷ failure 4 true
    ∷ failure 5 true
    ∷ check 64
    ∷ check 65
    ∷ check 66
    ∷ check 67
    ∷ []

-- One check passes while closed, none in the cooldown, two as probes.
calls-run : (run calls breaker).1 ≡ 3
unfolding run call check_allow_execution record_failure new
calls-run = refl

run-IsSound_example : IsSound (run calls breaker).0
unfolding new
run-IsSound_example = run-IsSound calls breaker (omega arith) (new-IsSound 5 60 2 (omega arith))

abbrev tripped : ProviderCircuitBreaker
tripped = record breaker { state = opened; consecutive_failures = 5; last_failure_time = 5 }

abbrev probing : ProviderCircuitBreaker
probing = record breaker { state = half_open; consecutive_failures = 5; half_open_probes = 1 }

abbrev used_up : ProviderCircuitBreaker
used_up = record probing { half_open_probes = 2 }

half_open_stuck_example :
    run (failure 70 false ∷ check 1000 ∷ check 1_000_000 ∷ []) used_up ≡ (used_up, 0)
unfolding new
half_open_stuck_example =
    half_open_stuck (failure 70 false ∷ check 1000 ∷ check 1_000_000 ∷ []) used_up refl
      (omega arith) (refl, (tt, (tt, tt)))
