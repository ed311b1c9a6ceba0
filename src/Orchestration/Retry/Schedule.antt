-- ===== src/Orchestration/Retry/Schedule.antt =====
-- How long a call may sleep.
use finance_intelligence.Prelude.{
  ℕ, zero, suc, ◌+◌, ◌≤◌, ◌≡◌, refl, inl, inr, Option, none, some, List, [], ◌∷◌, Result,
  Result-cases, arith,
}
use finance_intelligence.Orchestration.Retry.{
  ProviderError, backoff_delay, attempt_from, call_with_transient_retry,
}

abbrev pub sum : List ℕ → ℕ
sum [] = 0
sum (x ∷ xs) = x + sum xs

-- The delays that are slept on the worst course, when every attempt is retried to the last.
unfoldable pub worst : ℕ → ℕ → ℕ → ℕ → ℕ
worst base max_delay attempt zero = 0
worst base max_delay attempt (suc n) =
    backoff_delay attempt base max_delay + worst base max_delay (attempt + 1) n

module _ {ℓ} {T : Type ℓ} (operation : ℕ → Result ProviderError T)
    (base max_delay max_attempts : ℕ) where
  -- With `r` attempts after this one, the loop has `r + 1` rounds left, and the last cannot sleep.
  sleeps-le-worst :
      (r attempt : ℕ) (last : Option ProviderError)
      → attempt + r ≡ max_attempts
      → sum (attempt_from operation base max_delay max_attempts (suc r) attempt last).0
        ≤ worst base max_delay attempt r
  unfolding attempt_from worst
  sleeps-le-worst zero attempt last h = elim (Result-cases (operation attempt)) [
    | inl (v, p) ↦ ground arith
    | inr (e, p) ↦ ground arith
  ]
  sleeps-le-worst (suc r) attempt last h = elim (Result-cases (operation attempt)) [
    | inl (v, p) ↦ ground arith
    | inr (e, p) ↦ ground (arith, sleeps-le-worst r (attempt + 1) (some e))
  ]

-- With the default limits, six attempts and delays of two seconds doubling up to thirty, a call
-- sleeps sixty seconds in all at the most, whatever the operation answers.
default_sleep-le {ℓ} :
    {T : Type ℓ} (operation : ℕ → Result ProviderError T)
    → sum (call_with_transient_retry operation 2 30 6).0 ≤ 60
unfolding call_with_transient_retry worst backoff_delay
default_sleep-le operation = sleeps-le-worst operation 2 30 6 5 1 none refl
