-- ===== src/Ingestion/Command.antt =====
-- services/worker/app/command_envelope.py: the signed command by which the api tells the ingestion
-- worker to process a job. Texts are lists of code points, times are microseconds, and the fields
-- that are identifiers are numbers. The text of an identifier, the ISO text of a time and the
-- HMAC-SHA256 of a secret and a text are parameters.
pub mod Canonical
pub mod Validation
use finance_intelligence.Prelude.{
  Bool, List, Option, Result, [], if◌then◌else◌, is_empty, leb, length, ltb, none, not, ok,
  raise_if, some, suc, zero, ℕ, ◌%◌, ◌&&◌, ◌*◌, ◌++◌, ◌+◌, ◌-◌, ◌/◌, ◌==◌, ◌>>=◌, ◌>>◌, ◌∷◌,
}
use finance_intelligence.Prelude.Ascii.{codes, eq_text}

pub record IngestionCommandEnvelope : Type 0 where
  pub job_id : ℕ
  pub command_id : ℕ
  pub command_type : List ℕ
  pub issued_at : ℕ
  pub expires_at : ℕ
  pub idempotency_key : List ℕ
  pub schema_version : List ℕ
  pub key_id : List ℕ
  pub signature : List ℕ

-- The allowlisted codes of `InvalidCommandEnvelopeError`.
pub data InvalidCommandEnvelopeError : Type 0 where
  command_schema_rejected command_type_invalid command_expired command_clock_skew
        command_key_unavailable command_signature_invalid :
      InvalidCommandEnvelopeError

pub record CommandPlatform : Type 0 where
  pub text_of_uuid : ℕ → List ℕ
  pub iso_text : ℕ → List ℕ
  pub hmac : List ℕ → List ℕ → List ℕ

-- `str(n)`: the last digit is written last; `fuel` bounds the number of digits.
unfoldable pub digits : ℕ → ℕ → List ℕ
digits zero n = []
digits (suc fuel) n =
    let front = digits fuel (n / 10) in
    if ltb n 10 then (n + b'0') ∷ [] else front ++ (n % 10 + b'0') ∷ []

-- A number has no more digits than it has units, but for 0.
unfoldable pub decimal : ℕ → List ℕ
unfolding digits
decimal n = digits (suc n) n

-- `f"{len(p)}:{p}"`.
unfoldable pub prefixed : List ℕ → List ℕ
unfolding decimal
prefixed part = decimal (length part) ++ b':' ∷ part

-- `"|".join(...)` of the prefixed parts.
unfoldable pub joined : List (List ℕ) → List ℕ
unfolding prefixed
joined [] = []
joined (part ∷ []) = prefixed part
joined (part ∷ next ∷ parts) = prefixed part ++ b'|' ∷ joined (next ∷ parts)

module _ (p : CommandPlatform) where
  unfoldable pub signed_parts : IngestionCommandEnvelope → List (List ℕ)
  signed_parts e =
      e.schema_version
      ∷ p.text_of_uuid e.command_id
      ∷ p.text_of_uuid e.job_id
      ∷ e.command_type
      ∷ p.iso_text e.issued_at
      ∷ p.iso_text e.expires_at
      ∷ e.idempotency_key
      ∷ e.key_id
      ∷ []

  unfoldable pub get_canonical_payload : IngestionCommandEnvelope → List ℕ
  unfolding joined signed_parts
  get_canonical_payload e = joined (signed_parts e)

  unfoldable pub compute_signature :
      List ℕ → IngestionCommandEnvelope → Result InvalidCommandEnvelopeError (List ℕ)
  unfolding get_canonical_payload
  compute_signature secret e =
      raise_if (is_empty secret) command_key_unavailable
      >> ok (p.hmac secret (get_canonical_payload e))

  unfoldable pub with_signature :
      List ℕ
      → IngestionCommandEnvelope
      → Result InvalidCommandEnvelopeError IngestionCommandEnvelope
  unfolding compute_signature
  with_signature secret e = compute_signature secret e >>= λ s. ok (record e { signature = s })

  unfoldable pub is_expired : ℕ → IngestionCommandEnvelope → Bool
  is_expired current e = ltb e.expires_at current

  -- `abs((current - self.issued_at).total_seconds()) > max_skew_seconds`.
  unfoldable pub is_skewed : ℕ → ℕ → IngestionCommandEnvelope → Bool
  is_skewed current max_skew_seconds e =
      ltb (max_skew_seconds * 1000000) ((current - e.issued_at) + (e.issued_at - current))

  unfoldable pub validate_envelope :
      (List ℕ → List ℕ)
      → ℕ
      → ℕ
      → IngestionCommandEnvelope
      → Result InvalidCommandEnvelopeError (Unit {0})
  unfolding is_expired is_skewed compute_signature eq_text
  validate_envelope resolver current max_skew_seconds e =
      raise_if (not (eq_text e.schema_version (codes "2.0.0"))) command_schema_rejected
      >> raise_if (not (eq_text e.command_type (codes "PROCESS_INGESTION_JOB")))
          command_type_invalid
      >> raise_if (is_expired current e) command_expired
      >> raise_if (is_skewed current max_skew_seconds e) command_clock_skew
      >> raise_if (is_empty (resolver e.key_id)) command_key_unavailable
      >> (compute_signature (resolver e.key_id) e >>= λ expected.
          raise_if (not (eq_text e.signature expected)) command_signature_invalid)

-- `key_id.upper().replace('-', '_')`.
unfoldable pub env_name : List ℕ → List ℕ
env_name [] = []
env_name (c ∷ cs) =
    let rest = env_name cs in
    if c == b'-'
    then b'_' ∷ rest
    else if leb b'a' c && leb c b'z'
    then (c - 32) ∷ rest
    else c ∷ rest

-- `os.environ` is a parameter.
unfoldable pub default_secret_resolver : (List ℕ → Option (List ℕ)) → List ℕ → List ℕ
unfolding env_name
default_secret_resolver environ key_id =
    own (environ (codes "INGESTION_HMAC_SECRET_" ++ env_name key_id))
  where
    shared : Option (List ℕ) → List ℕ
    shared none = []
    shared (some s) = s

    own : Option (List ℕ) → List ℕ
    own none = shared (environ (codes "INGESTION_HMAC_SECRET"))
    own (some []) = shared (environ (codes "INGESTION_HMAC_SECRET"))
    own (some (c ∷ cs)) = c ∷ cs
