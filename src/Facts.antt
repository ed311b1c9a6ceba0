-- ===== src/Facts.antt =====
-- The review of facts: the tables that services/api/app/services/financial_fact_service.py reads
-- and writes (services/api/app/models: financial_fact.py, financial_fact_candidate.py,
-- candidate_evidence.py, fact_review_decision.py, metric_definition.py, document_version.py), as
-- lists of rows in the order of insertion. Identifiers and times are numbers, texts are lists of
-- code points, and a `Numeric(28, 6)` is the whole number of its millionths. Columns that the
-- service neither reads nor computes are left out: labels, raw values and locations.
-- A confidence score is the number of its thousandths.
use finance_intelligence.Audit.{AuditEvent, Value}
use finance_intelligence.Prelude.{Bool, List, Option, false, true, ℕ, ◌==◌}
pub mod Evidence
pub mod Decimal
pub mod Normalization
pub mod Names
pub mod Signs
pub mod Cells
pub mod Candidates
pub mod Idempotency
pub mod Writes
pub mod Review
pub mod Calls
pub mod Effects
pub mod Active
pub mod Reviewed
pub mod History
pub mod Ledger
pub mod Support

pub data ℤ : Type 0 where
  pos : ℕ → ℤ
  negsuc : ℕ → ℤ

unfoldable pub eq_int : ℤ → ℤ → Bool
eq_int (pos m) (pos n) = m == n
eq_int (pos m) (negsuc n) = false
eq_int (negsuc m) (pos n) = false
eq_int (negsuc m) (negsuc n) = m == n

-- The texts that the program writes to `review_status` of a candidate.
pub data ReviewStatus : Type 0 where
  pending approved rejected : ReviewStatus

-- The texts that the program writes to `validation_status` of a candidate.
pub data ValidationStatus : Type 0 where
  extracted normalized needs_review conflicted approved rejected : ValidationStatus

pub record FinancialFactCandidate : Type 0 where
  pub id : ℕ
  pub organization_id : ℕ
  pub institution_id : ℕ
  pub reporting_period_id : ℕ
  pub metric_definition_id : Option ℕ
  pub parsed_decimal_value : Option ℤ
  pub normalized_currency : List ℕ
  pub normalized_unit : List ℕ
  pub normalized_scale : List ℕ
  pub normalized_value : Option ℤ
  pub detected_reporting_basis : List ℕ
  pub source_document_id : ℕ
  pub source_document_version_id : ℕ
  pub validation_status : ValidationStatus
  pub review_status : ReviewStatus
  pub value_origin : List ℕ
  pub conflicting_fact_id : Option ℕ
  pub conflict_detected_at : Option ℕ
  pub conflict_reason : Option (List ℕ)
  pub detected_value_hash : Option (List ℕ)
  pub suggested_metric_code : Option (List ℕ)
  pub confidence_score : ℕ
  pub warning_codes : List (List ℕ)
  pub idempotency_hash : Option (List ℕ)

pub record FinancialFact : Type 0 where
  pub id : ℕ
  pub organization_id : ℕ
  pub institution_id : ℕ
  pub reporting_period_id : ℕ
  pub metric_definition_id : ℕ
  pub metric_code : List ℕ
  pub value : ℤ
  pub currency : List ℕ
  pub unit : List ℕ
  pub scale : List ℕ
  pub normalized_value : ℤ
  pub reporting_basis : List ℕ
  pub source_candidate_id : ℕ
  pub source_document_id : ℕ
  pub review_status : List ℕ
  pub verified_by_user_id : Option ℕ
  pub verified_at : ℕ
  pub supersedes_fact_id : Option ℕ
  pub valid_from : ℕ
  pub valid_to : Option ℕ
  pub value_origin : List ℕ

pub record CandidateEvidence : Type 0 where
  pub id : ℕ
  pub organization_id : ℕ
  pub candidate_id : ℕ
  pub source_document_version_id : ℕ
  pub page_number : Option ℤ
  pub row_index : Option ℤ
  pub column_index : Option ℤ
  pub bounding_box : Value

pub record DocumentVersion : Type 0 where
  pub id : ℕ
  pub organization_id : ℕ
  pub document_id : ℕ
  pub declared_mime_type : List ℕ
  pub detected_mime_type : List ℕ

pub record MetricDefinition : Type 0 where
  pub id : ℕ
  pub metric_code : List ℕ
  pub canonical_name : List ℕ

-- `class MetricAlias` of metric_alias.py.
pub record MetricAlias : Type 0 where
  pub organization_id : ℕ
  pub metric_definition_id : ℕ
  pub alias_pattern : List ℕ

pub data Decision : Type 0 where
  approved rejected : Decision

pub record FactReviewDecision : Type 0 where
  pub organization_id : ℕ
  pub candidate_id : ℕ
  pub reviewer_user_id : ℕ
  pub decision : Decision
  pub rejection_reason_code : Option (List ℕ)
  pub decision_notes : Option (List ℕ)
  pub created_fact_id : Option ℕ

pub record FactTables : Type 0 where
  pub candidates : List FinancialFactCandidate
  pub evidence : List CandidateEvidence
  pub document_versions : List DocumentVersion
  pub metric_definitions : List MetricDefinition
  pub metric_aliases : List MetricAlias
  pub facts : List FinancialFact
  pub decisions : List FactReviewDecision
  pub audit_log : List AuditEvent

-- The codes of the errors that the services raise, the two of `scalar_one` and
-- `scalar_one_or_none`, and that of a value that a column does not take.
pub data ReviewError : Type 0 where
  candidate_not_found candidate_already_reviewed cannot_approve_unparsed_value
        cannot_approve_without_metric_definition cannot_approve_invalid_candidate
        evidence_incomplete evidence_source_mismatch evidence_lineage_incomplete
        reporting_basis_required unsupported_reporting_basis fact_value_conflict
        revision_target_mismatch revision_concurrency_conflict revision_natural_key_mismatch
        revision_value_unchanged no_result_found multiple_results_found unsupported_scale
        legacy_lineage_field_rejected invalid_column :
      ReviewError

-- What the service takes from the language's libraries: the text of an identifier and of a decimal,
-- and `sha256(…).hexdigest()`.
pub record FactPlatform : Type 0 where
  pub text_of_uuid : ℕ → List ℕ
  pub text_of_decimal : ℤ → List ℕ
  pub sha256 : List ℕ → List ℕ
