-- ===== src/Orchestration/Retry.antt =====
-- services/api/app/orchestration/transient_retry.py: repeats a model call that failed for a reason
-- that will pass. An error is what the code reads of it. Texts are ASCII, and delays are whole
-- numbers of seconds, or of any smaller unit.
pub mod Schedule
pub mod Rounds
use finance_intelligence.Prelude.{
  ℕ, zero, suc, ◌+◌, ◌-◌, ◌*◌, ◌^◌, min, Bool, true, false, not, ◌&&◌, ◌||◌, Option, none, some,
  List, [], ◌∷◌, map, any, Result as Answer, ok, err, ◌==◌, if◌then◌else◌,
}
use finance_intelligence.Prelude.Ascii.{
  codes, is_digit, is_word, to_lower, is_in, after, skip_spaces,
}

-- An attribute of an error object: an `int`, or anything else.
pub data Attribute : Type 0 where
  int : ℕ → Attribute
  other : Attribute

-- `timed_out` is `isinstance(error, (asyncio.TimeoutError, ConnectionError))`; an attribute that is
-- missing is `none`.
pub record ProviderError : Type 0 where
  pub timed_out : Bool
  pub status_code : Option Attribute
  pub http_status : Option Attribute
  pub code : Option Attribute
  pub response_status_code : Option Attribute
  pub text : List ℕ

abbrev pub transient_status_codes : List ℕ
transient_status_codes = 408 ∷ 409 ∷ 425 ∷ 429 ∷ 500 ∷ 502 ∷ 503 ∷ 504 ∷ 529 ∷ []

abbrev pub transient_phrases : List (List ℕ)
transient_phrases =
    codes "overloaded"
    ∷ codes "rate limit"
    ∷ codes "rate_limit"
    ∷ codes "timeout"
    ∷ codes "timed out"
    ∷ codes "temporarily unavailable"
    ∷ codes "service unavailable"
    ∷ codes "connection reset"
    ∷ codes "connection error"
    ∷ codes "bad gateway"
    ∷ []

abbrev starts_word : List ℕ → Bool
starts_word [] = false
starts_word (c ∷ s) = is_word c

-- `(\d{3})\b`.
three_digits : List ℕ → Option ℕ
three_digits (a ∷ b ∷ c ∷ s) =
    if is_digit a && is_digit b && is_digit c && not (starts_word s)
    then some ((a - 48) * 100 + (b - 48) * 10 + (c - 48))
    else none
three_digits _ = none

-- `error code:\s*(\d{3})\b` at the start of the text.
status_here : List ℕ → Option ℕ
unfolding three_digits
status_here s = elim (after (codes "error code:") s) [
  | none ↦ none
  | some rest ↦ three_digits (skip_spaces rest)
]

-- The leftmost match; the first argument says whether a word character stands just before.
search_status : Bool → List ℕ → Option ℕ
unfolding status_here
search_status in_word [] = none
search_status in_word (c ∷ s) = elim (if in_word then none else status_here (c ∷ s)) [
  | some n ↦ some n
  | none ↦ search_status (is_word c) s
]

-- The loop over the names of attributes, and then the response.
first_int : List (Option Attribute) → Option ℕ
first_int [] = none
first_int (some (int n) ∷ rest) = some n
first_int (some other ∷ rest) = first_int rest
first_int (none ∷ rest) = first_int rest

unfoldable pub status_code_of : ProviderError → Option ℕ
unfolding first_int search_status is_digit is_word after skip_spaces
status_code_of error =
    elim (first_int
      (error.status_code ∷ error.http_status ∷ error.code ∷ error.response_status_code ∷ [])) [
        | some n ↦ some n
        | none ↦ search_status false error.text
      ]

unfoldable pub is_transient : ProviderError → Bool
unfolding status_code_of to_lower is_in
is_transient error = if error.timed_out then true else elim (status_code_of error) [
  | some status ↦ any (λ c. status == c) transient_status_codes
  | none ↦ any (λ phrase. is_in phrase (map to_lower error.text)) transient_phrases
]

-- `max(0, attempt - 1)` is the truncated difference.
unfoldable pub backoff_delay : ℕ → ℕ → ℕ → ℕ
backoff_delay attempt base_delay max_delay = min (base_delay * 2 ^ (attempt - 1)) max_delay

-- How `call_with_transient_retry` ends. With no attempt allowed it raises `None`, a `TypeError`.
pub data Ending {ℓ} (T : Type ℓ) : Type ℓ where
  returned : T → Ending T
  raised : ProviderError → Ending T
  no_attempt : Ending T

module _ {ℓ} {T : Type ℓ} (operation : ℕ → Answer ProviderError T)
    (base_delay max_delay max_attempts : ℕ) where
  -- The loop `for attempt in range(1, max_attempts + 1)`, by the rounds that are left; beside the
  -- ending, the delays that were slept. `operation` is asked by the number of the attempt.
  unfoldable pub attempt_from : ℕ → ℕ → Option ProviderError → List ℕ × Ending T
  attempt_from zero attempt none = ([], no_attempt)
  attempt_from zero attempt (some last_error) = ([], raised last_error)
  attempt_from (suc left) attempt last = elim (operation attempt) [
    | ok value ↦ ([], returned value)
    | err error ↦ elim (not (is_transient error) || attempt == max_attempts) [
      | true ↦ ([], raised error)
      | false ↦
          let (sleeps, ending) = attempt_from left (attempt + 1) (some error) in
          (backoff_delay attempt base_delay max_delay ∷ sleeps, ending)
    ]
  ]

  unfoldable pub call_with_transient_retry : List ℕ × Ending T
  unfolding attempt_from
  call_with_transient_retry = attempt_from max_attempts 1 none
