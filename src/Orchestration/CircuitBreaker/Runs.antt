-- ===== src/Orchestration/CircuitBreaker/Runs.antt =====
-- What a breaker does over sequences of calls.
use finance_intelligence.Prelude.{
  ℕ, suc, ◌+◌, ◌-◌, ◌≤◌, ◌<◌, min, ◌≡◌, refl, Bool, true, false, List, [], ◌∷◌, Result, ok, err,
  length, leb, if◌then◌else◌, arith,
}
use finance_intelligence.Orchestration.CircuitBreaker.{
  ProviderCircuitBreaker, ModelProviderUnavailable, cooldown_active, closed, opened, half_open,
  check_allow_execution, record_success, record_failure,
}
use finance_intelligence.Orchestration.CircuitBreaker.Invariant.{
  IsSound, check_allow_execution-IsSound, record_success-IsSound, record_failure-IsSound,
}

-- A call of one of the three methods, with the time at which it is made.
pub data Call : Type 0 where
  check : ℕ → Call
  success : Call
  failure : ℕ → Bool → Call

-- The breaker after a call, and whether the call let an execution through.
unfoldable pub call : Call → ProviderCircuitBreaker → ProviderCircuitBreaker × Bool
call (check now) b = let (b', r) = check_allow_execution now b in (b', allows r)
  where
    allows : Result ModelProviderUnavailable (Unit {0}) → Bool
    allows (ok _) = true
    allows (err _) = false
call success b = (record_success b, false)
call (failure now is_transient) b = (record_failure now is_transient b, false)

-- The breaker after a sequence of calls, and how many executions they let through.
unfoldable pub run : List Call → ProviderCircuitBreaker → ProviderCircuitBreaker × ℕ
run [] b = (b, 0)
run (c ∷ cs) b =
    let (b', allowed) = call c b in let (b'', n) = run cs b' in (b'', if allowed then suc n else n)

call-IsSound :
    (c : Call) (b : ProviderCircuitBreaker)
    → 0 < b.failure_threshold
    → IsSound b
    → IsSound (call c b).0 × (0 < (call c b).0.failure_threshold)
unfolding call
call-IsSound (check now) b p h =
    (check_allow_execution-IsSound now b h, unfold check_allow_execution in ground arith)
call-IsSound success b p h = (record_success-IsSound b p, unfold record_success in p)
call-IsSound (failure now t) b p h =
    (record_failure-IsSound now t b h, unfold record_failure in ground arith)

-- Whatever calls are made, in any order and at any times, a sound breaker with a positive threshold
-- stays sound: closed only below the threshold, and never more probes than allowed.
pub run-IsSound :
    (cs : List Call) (b : ProviderCircuitBreaker)
    → 0 < b.failure_threshold
    → IsSound b
    → IsSound (run cs b).0
unfolding run
run-IsSound [] b p h = h
run-IsSound (c ∷ cs) b p h =
    let (sound, positive) = call-IsSound c b p h in run-IsSound cs (call c b).0 positive sound

-- Transient failures in a row, each at its own time.
abbrev pub fail_all : List ℕ → ProviderCircuitBreaker → ProviderCircuitBreaker
fail_all [] b = b
fail_all (now ∷ times) b = fail_all times (record_failure now true b)

fail_all-opened :
    (times : List ℕ) (b : ProviderCircuitBreaker)
    → b.state ≡ opened
    → b.failure_threshold ≤ b.consecutive_failures
    → (fail_all times b).state ≡ opened
fail_all-opened [] b h k = h
fail_all-opened (now ∷ times) b h k =
    fail_all-opened times (record_failure now true b) (unfold record_failure in ground arith)
      (unfold record_failure in ground arith)

-- From a closed breaker, transient failures in a row open it exactly when they bring the count up
-- to the threshold.
fail_all-state :
    (times : List ℕ) (b : ProviderCircuitBreaker)
    → b.state ≡ closed
    → b.consecutive_failures < b.failure_threshold
    → (fail_all times b).state
      ≡ (if leb b.failure_threshold (b.consecutive_failures + length times) then opened else closed)
unfolding record_failure
fail_all-state [] b h k = ground arith
fail_all-state (now ∷ times) b h k = ground (
  arith,
  fail_all-opened times (record_failure now true b),
  fail_all-state times (record_failure now true b),
)

-- An open breaker refuses every execution until its cooldown is over, and is left as it was; from
-- then on the first check lets one probe through, if any are allowed.
opened_gate :
    (now : ℕ) (b : ProviderCircuitBreaker)
    → b.state ≡ opened
    → 0 < b.half_open_max_probes
    → check_allow_execution now b ≡ (
        if leb (b.last_failure_time + b.cooldown_seconds) now
        then (record b { state = half_open; half_open_probes = 1 }, ok tt)
        else (b, err cooldown_active))
unfolding check_allow_execution
opened_gate now b h p = ground arith

abbrev pub checks : List ℕ → List Call
checks [] = []
checks (now ∷ times) = check now ∷ checks times

-- While a breaker is half open and no outcome is recorded, the checks let through just the probes
-- that are left, however many checks are made.
half_open_probe_budget :
    (times : List ℕ) (b : ProviderCircuitBreaker)
    → b.state ≡ half_open
    → (run (checks times) b).1 ≡ min (length times) (b.half_open_max_probes - b.half_open_probes)
unfolding run call check_allow_execution
half_open_probe_budget [] b h = omega arith
half_open_probe_budget (now ∷ times) b h = ground (
  arith,
  half_open_probe_budget times b,
  half_open_probe_budget times (record b { half_open_probes = b.half_open_probes + 1 }),
)

-- A call that is no recorded success and no transient failure.
abbrev pub IsQuiet : Call → Type 0
IsQuiet (check now) = Unit
IsQuiet success = ⊥
IsQuiet (failure now is_transient) = is_transient ≡ false

abbrev pub AllQuiet : List Call → Type 0
AllQuiet [] = Unit
AllQuiet (c ∷ cs) = IsQuiet c × AllQuiet cs

quiet_call :
    (c : Call) (b : ProviderCircuitBreaker)
    → b.state ≡ half_open
    → b.half_open_max_probes ≤ b.half_open_probes
    → IsQuiet c
    → call c b ≡ (b, false)
unfolding call check_allow_execution record_failure
quiet_call (check now) b h k q = ground arith
quiet_call success b h k q = absurd q
quiet_call (failure now t) b h k q = ground arith

-- A half-open breaker whose probes are used up has no clock: until some outcome is recorded, and a
-- failure that is not transient records none, it refuses every execution at every time.
pub half_open_stuck :
    (cs : List Call) (b : ProviderCircuitBreaker)
    → b.state ≡ half_open
    → b.half_open_max_probes ≤ b.half_open_probes
    → AllQuiet cs
    → run cs b ≡ (b, 0)
unfolding run
half_open_stuck [] b h k q = refl
half_open_stuck (c ∷ cs) b h k q = rw (quiet_call c b h k q.0, half_open_stuck cs b h k q.1)
