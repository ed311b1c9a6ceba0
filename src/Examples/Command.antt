-- ===== src/Examples/Command.antt =====
-- services/worker/app/command_envelope.py: a command that is signed, and one whose parts hold the
-- delimiters.
use finance_intelligence.Prelude.{List, [], ok, refl, true, ℕ, ◌++◌, ◌↔◌, ◌∷◌, ◌≡◌}
use finance_intelligence.Ingestion.Command.Canonical.{canonical_payload-injective}
use finance_intelligence.Ingestion.Command.Validation.{validate_envelope_iff, is_acceptable}
use finance_intelligence.Prelude.Ascii.{codes}
use finance_intelligence.Ingestion.Command.{
  IngestionCommandEnvelope, validate_envelope, CommandPlatform, signed_parts, get_canonical_payload,
}

abbrev platform : CommandPlatform
platform = record { text_of_uuid = λ n. n ∷ []; iso_text = λ t. t ∷ []; hmac = λ s t. s ++ t }

abbrev secrets : List ℕ → List ℕ
secrets key = codes "secret"

abbrev command : IngestionCommandEnvelope
command = record {
  job_id = 65;
  command_id = 66;
  command_type = codes "PROCESS_INGESTION_JOB";
  issued_at = 1000000;
  expires_at = 9000000;
  idempotency_key = codes "a|5:b";
  schema_version = codes "2.0.0";
  key_id = codes "key-v1";
  signature = [];
}

abbrev signed : IngestionCommandEnvelope
signed = record command { signature = codes "secret" ++ get_canonical_payload platform command }

canonical_payload-injective_example : signed_parts platform command ≡ signed_parts platform signed
unfolding get_canonical_payload signed_parts
canonical_payload-injective_example = canonical_payload-injective platform command signed refl

validate_envelope_iff_example :
    (validate_envelope platform secrets 2000000 300 signed ≡ ok tt)
    ↔ (is_acceptable platform secrets 2000000 300 signed ≡ true)
validate_envelope_iff_example = validate_envelope_iff platform secrets 2000000 300 signed
