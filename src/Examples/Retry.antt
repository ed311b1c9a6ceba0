-- ===== src/Examples/Retry.antt =====
-- services/api/app/orchestration/transient_retry.py: an overloaded provider that recovers.

use finance_intelligence.Prelude.{
  Result, arith, err, false, if◌then◌else◌, inl, ltb, none, ok, refl, some, true, ℕ, ◌<◌, ◌≡◌, ◌≤◌,
}
use finance_intelligence.Orchestration.Retry.Schedule.{sum}
use finance_intelligence.Prelude.Ascii.{codes}
use finance_intelligence.Orchestration.Retry.Rounds.{
  is_retryable, call_with_transient_retry_lem, delays,
}
use finance_intelligence.Orchestration.Retry.{
  call_with_transient_retry, status_code_of, backoff_delay, returned, ProviderError, other,
  is_transient,
}

abbrev overloaded : ProviderError
overloaded = record {
  timed_out = false;
  status_code = none;
  http_status = none;
  code = some other;
  response_status_code = none;
  text = codes "Error code: 529 - Overloaded";
}

abbrev refused : ProviderError
refused = record overloaded { text = codes "Error code: 401 - bad key" }

statuses :
    (status_code_of overloaded ≡ some 529)
    × (is_transient overloaded ≡ true)
    × (is_transient refused ≡ false)
    × (is_transient (record overloaded { text = codes "Connection Reset by peer" }) ≡ true)
    × (status_code_of (record overloaded { text = codes "error code: 5290" }) ≡ none)
unfolding status_code_of is_transient
statuses = (refl, refl, refl, refl, refl)

-- Overloaded twice, then an answer.
abbrev operation : ℕ → Result ProviderError ℕ
operation k = if ltb k 3 then err overloaded else ok 7

early : (k : ℕ) → 1 ≤ k → k < 3 → is_retryable (operation k) ≡ true
unfolding is_retryable is_transient
early k lo hi = rw ((lt→ltb_ k hi))
  where
    lt→ltb_ : (k : ℕ) → k < 3 → ltb k 3 ≡ true
    lt→ltb_ k h = ground arith

call_with_transient_retry_lem_example :
    call_with_transient_retry operation 2 30 6 ≡ (delays 2 30 1 2, returned 7)
call_with_transient_retry_lem_example =
    call_with_transient_retry_lem operation 2 30 6 3 (omega arith) (omega arith) early
      (inl (unfold is_retryable in refl))

-- The bound is met by a provider that stays down.
always_down : sum (call_with_transient_retry {T = ℕ} (λ k. err overloaded) 2 30 6).0 ≡ 60
unfolding call_with_transient_retry is_transient backoff_delay
always_down = refl
