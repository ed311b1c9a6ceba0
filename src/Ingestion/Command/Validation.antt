-- ===== src/Ingestion/Command/Validation.antt =====
-- Which envelopes the worker accepts (services/worker/app/command_envelope.py).
use mathlib.Core.Path.{subst}
use finance_intelligence.Prelude.{
  Bool, List, arith, false, is_empty, leb, not, ok, true, ℕ, ◌&&◌, ◌*◌, ◌+◌, ◌↔◌, ◌≡◌, Bool-cases,
  Result, inl, inr, ltb, ok-injective, raise_if, refl, ◌-◌, ◌>>=◌, ◌>>◌,
}
use finance_intelligence.Prelude.Ascii.{eq_text, codes, eq_text_refl}
use finance_intelligence.Ingestion.Command.{
  validate_envelope, CommandPlatform, is_skewed, get_canonical_payload, is_expired, command_expired,
  compute_signature, with_signature, IngestionCommandEnvelope, InvalidCommandEnvelopeError,
  signed_parts, command_schema_rejected, command_type_invalid, command_clock_skew,
  command_key_unavailable, command_signature_invalid,
}

-- The checks in their order, over the outcomes of the tests.
chain :
    Bool
    → Bool
    → Bool
    → Bool
    → Bool
    → (List ℕ → Bool)
    → List ℕ
    → Result InvalidCommandEnvelopeError (Unit {0})
chain schema type late skewed empty signed expected =
    raise_if (not schema) command_schema_rejected
    >> raise_if (not type) command_type_invalid
    >> raise_if late command_expired
    >> raise_if skewed command_clock_skew
    >> raise_if empty command_key_unavailable
    >> (raise_if empty command_key_unavailable >> ok expected >>= λ s.
        raise_if (not (signed s)) command_signature_invalid)

chain_iff :
    (schema type late skewed empty : Bool) (signed : List ℕ → Bool) (expected : List ℕ)
    → (chain schema type late skewed empty signed expected ≡ ok tt)
      ↔ ((schema && type && not late && not skewed && not empty && signed expected) ≡ true)
unfolding chain
chain_iff false type late skewed empty signed expected = (λ h. cc, λ h. cc)
chain_iff true false late skewed empty signed expected = (λ h. cc, λ h. cc)
chain_iff true true true skewed empty signed expected = (λ h. cc, λ h. cc)
chain_iff true true false true empty signed expected = (λ h. cc, λ h. cc)
chain_iff true true false false true signed expected = (λ h. cc, λ h. cc)
chain_iff true true false false false signed expected = elim (Bool-cases (signed expected)) [
  | inl t ↦ rw t (λ h. refl, λ h. refl)
  | inr f ↦ rw f (λ h. cc, λ h. cc)
]

not_late : (now t : ℕ) → leb now t ≡ not (ltb t now)
not_late now t = ground arith

not_skewed :
    (now t m : ℕ) → (leb now (t + m) && leb t (now + m)) ≡ not (ltb m ((now - t) + (t - now)))
not_skewed now t m = ground arith

-- The conditions of `validate_envelope`, all at once.
unfoldable pub is_acceptable :
    CommandPlatform → (List ℕ → List ℕ) → ℕ → ℕ → IngestionCommandEnvelope → Bool
is_acceptable p resolver current max_skew_seconds e =
    eq_text e.schema_version (codes "2.0.0")
    && eq_text e.command_type (codes "PROCESS_INGESTION_JOB")
    && leb current e.expires_at
    && (leb current (e.issued_at + max_skew_seconds * 1000000)
        && leb e.issued_at (current + max_skew_seconds * 1000000))
    && not (is_empty (resolver e.key_id))
    && eq_text e.signature (p.hmac (resolver e.key_id) (get_canonical_payload p e))

-- An envelope is accepted exactly if its schema and type are the expected ones, it has not expired,
-- its time of issue is within the skew of the clock on either side, a secret that is not empty
-- belongs to its key, and its signature is the one that this secret gives its canonical payload.
pub validate_envelope_iff :
    (p : CommandPlatform) (resolver : List ℕ → List ℕ) (current max_skew_seconds : ℕ)
    (e : IngestionCommandEnvelope)
    → (validate_envelope p resolver current max_skew_seconds e ≡ ok tt)
      ↔ (is_acceptable p resolver current max_skew_seconds e ≡ true)
unfolding validate_envelope is_acceptable is_expired is_skewed compute_signature chain
validate_envelope_iff p resolver current max_skew_seconds e =
    rw (not_late current e.expires_at, not_skewed current e.issued_at (max_skew_seconds * 1000000))
      (chain_iff (eq_text e.schema_version (codes "2.0.0"))
        (eq_text e.command_type (codes "PROCESS_INGESTION_JOB")) (is_expired p current e)
        (is_skewed p current max_skew_seconds e) (is_empty (resolver e.key_id))
        (eq_text e.signature) (p.hmac (resolver e.key_id) (get_canonical_payload p e)))

-- A command that was signed with the secret of its key is accepted by a worker with the same secret
-- as long as it is fresh: of the expected schema and type, not expired, and within the skew.
with_signature-validate_envelope :
    (p : CommandPlatform) (resolver : List ℕ → List ℕ) (current max_skew_seconds : ℕ)
    (e signed : IngestionCommandEnvelope)
    → e.schema_version ≡ codes "2.0.0"
    → e.command_type ≡ codes "PROCESS_INGESTION_JOB"
    → is_expired p current e ≡ false
    → is_skewed p current max_skew_seconds e ≡ false
    → with_signature p (resolver e.key_id) e ≡ ok signed
    → validate_envelope p resolver current max_skew_seconds signed ≡ ok tt
unfolding validate_envelope with_signature compute_signature is_expired is_skewed
    get_canonical_payload signed_parts
with_signature-validate_envelope p resolver current max_skew_seconds e signed schema type late skew
      s =
    elim (Bool-cases (is_empty (resolver e.key_id))) [
      | inl t ↦ absurd (cc (rw (t, with_signature, compute_signature) at s))
      | inr f ↦
          let q : record e { signature = p.hmac (resolver e.key_id) (get_canonical_payload p e) }
              ≡ signed =
            ok-injective (rw (f, with_signature, compute_signature) at s) in
          subst (λ x. validate_envelope p resolver current max_skew_seconds x ≡ ok tt) q
            (rw (schema, type, late, skew, f, eq_text_refl _) refl)
    ]
