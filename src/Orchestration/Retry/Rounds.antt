-- ===== src/Orchestration/Retry/Rounds.antt =====
-- Which attempt ends the loop.
use finance_intelligence.Prelude.{
  ℕ, zero, suc, ◌+◌, ◌-◌, ◌≤◌, ◌<◌, ◌≡◌, ◌⊎◌, inl, inr, Bool, true, false, Option, none, some, List,
  [], ◌∷◌, Result, ok, err, Result-cases, arith,
}
use finance_intelligence.Orchestration.Retry.{
  ProviderError, is_transient, backoff_delay, Ending, returned, raised, attempt_from,
  call_with_transient_retry,
}

-- The answer is an error that may be retried.
unfoldable pub is_retryable {ℓ} : {T : Type ℓ} → Result ProviderError T → Bool
is_retryable (ok value) = false
is_retryable (err error) = is_transient error

abbrev pub ending_of {ℓ} : {T : Type ℓ} → Result ProviderError T → Ending T
ending_of (ok value) = returned value
ending_of (err error) = raised error

-- The delays before so many retries, from an attempt on.
unfoldable pub delays : ℕ → ℕ → ℕ → ℕ → List ℕ
delays base max_delay attempt zero = []
delays base max_delay attempt (suc n) =
    backoff_delay attempt base max_delay ∷ delays base max_delay (attempt + 1) n

module _ {ℓ} {T : Type ℓ} (operation : ℕ → Result ProviderError T)
    (base max_delay max_attempts : ℕ) where
  -- One round, by the answer of the operation.
  round_ends :
      (left attempt : ℕ) (last : Option ProviderError)
      → (is_retryable (operation attempt) ≡ false) ⊎ (attempt ≡ max_attempts)
      → attempt_from operation base max_delay max_attempts (suc left) attempt last
        ≡ ([], ending_of (operation attempt))
  unfolding attempt_from is_retryable
  round_ends left attempt last h = ground arith

  round_goes_on :
      (left attempt : ℕ) (last : Option ProviderError)
      → is_retryable (operation attempt) ≡ true
      → attempt < max_attempts
      → (e : ProviderError) × (let r =
            attempt_from operation base max_delay max_attempts left (attempt + 1) (some e) in
          attempt_from operation base max_delay max_attempts (suc left) attempt last
          ≡ (backoff_delay attempt base max_delay ∷ r.0, r.1))
  unfolding is_retryable attempt_from
  round_goes_on left attempt last h k = elim (Result-cases (operation attempt)) [
    | inl (v, p) ↦ absurd (ground arith)
    | inr (e, p) ↦ (e, ground arith)
  ]

  -- Counting `d` retries from an attempt to the one, `n`, that ends the loop.
  loop_ends :
      (d left attempt n : ℕ) (last : Option ProviderError)
      → attempt + left ≡ max_attempts + 1
      → attempt + d ≡ n
      → n ≤ max_attempts
      → ((k : ℕ) → attempt ≤ k → k < n → is_retryable (operation k) ≡ true)
      → (is_retryable (operation n) ≡ false) ⊎ (n ≡ max_attempts)
      → attempt_from operation base max_delay max_attempts left attempt last
        ≡ (delays base max_delay attempt d, ending_of (operation n))
  unfolding delays
  loop_ends d zero attempt n last p q r early settled = absurd (omega arith)
  loop_ends zero (suc left) attempt n last p q r early settled =
      let e : attempt ≡ n = omega arith in rw e (round_ends left n last settled)
  loop_ends (suc d) (suc left) attempt n last p q r early settled =
      let (e, step) =
        round_goes_on left attempt last (early attempt (omega arith) (omega arith)) (omega arith) in
      let rest =
        loop_ends d left (attempt + 1) n (some e) (omega arith) (omega arith) r
          (λ k lo hi. early k (omega arith) hi) settled in
      rw (step, rest)

-- The ending is that of the first attempt that succeeds or fails for good, or else that of the last
-- attempt that is allowed; before it the loop has slept once for each earlier attempt, for the
-- delays of the schedule. No attempt is made after it.
pub call_with_transient_retry_lem {ℓ} :
    {T : Type ℓ} (operation : ℕ → Result ProviderError T) (base max_delay max_attempts n : ℕ)
    → 1 ≤ n
    → n ≤ max_attempts
    → ((k : ℕ) → 1 ≤ k → k < n → is_retryable (operation k) ≡ true)
    → (is_retryable (operation n) ≡ false) ⊎ (n ≡ max_attempts)
    → call_with_transient_retry operation base max_delay max_attempts
      ≡ (delays base max_delay 1 (n - 1), ending_of (operation n))
unfolding call_with_transient_retry
call_with_transient_retry_lem operation base max_delay max_attempts n lo hi early settled =
    loop_ends operation base max_delay max_attempts (n - 1) max_attempts 1 n none (omega arith)
      (omega arith) hi early settled
