-- ===== src/Orchestration/Clarification/Response.antt =====
-- The checks on the answer to a question: `validate_clarification_response` of
-- services/api/app/schemas/clarification.py and `_verify_referenced_entities_tenant_ownership` of
-- services/api/app/services/clarification_service.py. A `ValueError` is `none` or `false` here. A
-- payload is a JSON object with distinct keys.
use finance_intelligence.Prelude.{
  Bool, List, Option, Result, String, [], any, err, false, if◌then◌else◌, map, none, not, ok, some,
  true, ℕ, ◌&&◌, ◌==◌, ◌∷◌,
}
use finance_intelligence.Audit.{end, Fields, field, get_key}
use finance_intelligence.Prelude.Ascii.{lower, eq_text, is_member, codes}
use finance_intelligence.Orchestration.Clarification.{
  document_scope_required, reporting_basis_required, ClarificationCode, unsupported_request_scope,
  ClarificationTables, institution_required, clarification_response_invalid, ClarificationError,
  reporting_period_required, Platform, comparison_scope_ambiguous, measure_required,
}

-- `FORBIDDEN_PAYLOAD_KEYS`.
abbrev pub forbidden_payload_keys : List (List ℕ)
forbidden_payload_keys = map codes (
    "organization_id" ∷ "tenant_id" ∷ "user_id" ∷ "role" ∷ "permission" ∷ "provider" ∷ "model_id"
    ∷ "api_key" ∷ "prompt_template" ∷ "tool" ∷ "tool_plan" ∷ "sql" ∷ "shell" ∷ "python"
    ∷ "system_prompt" ∷ [])

-- `sanitize_and_check_keys`: whether it raises nothing. Only the keys of the object itself are
-- looked at.
unfoldable pub sanitize_and_check_keys : Fields → Bool
unfolding lower is_member
sanitize_and_check_keys end = true
sanitize_and_check_keys (field k v fs) =
    not (is_member (lower k) forbidden_payload_keys) && sanitize_and_check_keys fs

-- `ClarificationCode(code)`.
unfoldable pub clarification_code_of : List ℕ → Option ClarificationCode
unfolding eq_text
clarification_code_of s =
    if eq_text s (codes "INSTITUTION_REQUIRED")
    then some institution_required
    else if eq_text s (codes "REPORTING_PERIOD_REQUIRED")
    then some reporting_period_required
    else if eq_text s (codes "REPORTING_BASIS_REQUIRED")
    then some reporting_basis_required
    else if eq_text s (codes "MEASURE_REQUIRED")
    then some measure_required
    else if eq_text s (codes "DOCUMENT_SCOPE_REQUIRED")
    then some document_scope_required
    else if eq_text s (codes "COMPARISON_SCOPE_AMBIGUOUS")
    then some comparison_scope_ambiguous
    else if eq_text s (codes "UNSUPPORTED_REQUEST_SCOPE")
    then some unsupported_request_scope
    else none

unfoldable pub validate_clarification_response : Platform → List ℕ → Fields → Option Fields
unfolding sanitize_and_check_keys clarification_code_of
validate_clarification_response p code payload =
    if not (sanitize_and_check_keys payload)
    then none
    else elim (clarification_code_of code) [ none ↦ none | some c ↦ p.model_validate c payload ]

-- One `if key in payload:` of the check: the value names a row that the tenant sees.
unfoldable pub refers_to : Platform → List ℕ → String → Fields → Bool
refers_to p rows key payload = elim (get_key (codes key) payload) [
  | none ↦ true
  | some v ↦ elim (p.parse_uuid v) [ none ↦ false | some id ↦ any (λ r. r == id) rows ]
]

unfoldable pub verify_referenced_entities : Platform → ClarificationTables → Fields → Bool
unfolding refers_to
verify_referenced_entities p db payload =
    refers_to p db.institutions "institution_id" payload
    && refers_to p db.reporting_periods "period_id" payload
    && refers_to p db.documents "document_id" payload

-- The `try` of `respond`.
unfoldable pub accepted_payload :
    Platform → ClarificationTables → List ℕ → Fields → Result ClarificationError Fields
unfolding validate_clarification_response verify_referenced_entities
accepted_payload p db code payload = elim (validate_clarification_response p code payload) [
  | none ↦ err clarification_response_invalid
  | some fs ↦
      if verify_referenced_entities p db fs then ok fs else err clarification_response_invalid
]
