-- ===== src/Examples/Facts.antt =====
-- services/api/app/services/financial_fact_service.py: two candidates for one natural key.
use finance_intelligence.Facts.Support.{candidate_of, IsSupported, approved-IsSupported}
use finance_intelligence.Facts.{
  eq_int, negsuc, FinancialFactCandidate, FinancialFact, FactTables, FactPlatform, pos,
  CandidateEvidence, ValidationStatus, ReviewError, ReviewStatus, ℤ,
}
use finance_intelligence.Facts.Evidence.{
  is_page, is_index, has_key, is_box, text_or, is_located_cell, is_located, is_version_of,
  version_is_evidence, verify_row, verify_rows, is_evidence_for, resolve_basis,
  verify_evidence_and_basis,
}
use finance_intelligence.Facts.Writes.{
  is_candidate, is_pending, is_conflicted, key_of, same_key, is_active_of, candidate_key,
  one_or_none, decimal_or, new_fact, set_candidate, mark_approved, mark_rejected, mark_conflicted,
  add_fact, record_decision, record_audit, notes_or, is_in_force, closed, is_other_target,
  has_metric_id,
}
use finance_intelligence.Facts.Review.{
  finish, decision, settle_approval, corroborate, publish_fact, approve_with, approve_pending,
  approve_candidate, supersede, revise_fact, revise_candidate, approve_candidate_as_revision,
  reject_candidate, Reviewing,
}
use finance_intelligence.Facts.Calls.{returned, call, call_all, approve, revise, reject, Call}
use finance_intelligence.Prelude.Ascii.{
  is_in, starts_with, lower, upper, to_lower, to_upper, eq_text, is_member, codes,
}
use finance_intelligence.Audit.{get_key, record_event, clean_payload, dict, end}
use finance_intelligence.Facts.Reviewed.{reviewed_once}
use finance_intelligence.Facts.History.{Keeps, call_all-Keeps}
use finance_intelligence.Facts.Ledger.{LedgerStep, PrimaryKey, ledger, call-LedgerStep}
use finance_intelligence.Facts.Active.{ActiveUnique, call_all-ActiveUnique}
use finance_intelligence.Prelude.{
  Bool, List, [], arith, err, false, if◌then◌else◌, length, map, none, ok, refl, some, true, ℕ, ◌∷◌,
  ◌≡◌, ◌≤◌, Option,
}

abbrev pub platform : FactPlatform
platform = record {
  text_of_uuid = λ n. n ∷ [];
  text_of_decimal = λ d. elim d [ pos n ↦ n ∷ [] | negsuc n ↦ b'-' ∷ n ∷ [] ];
  sha256 = λ s. s;
}

abbrev candidate : FinancialFactCandidate
candidate = record {
  id = 3;
  organization_id = 1;
  institution_id = 20;
  reporting_period_id = 21;
  metric_definition_id = some 9;
  parsed_decimal_value = some (pos 100);
  normalized_currency = codes "TRY";
  normalized_unit = codes "CURRENCY";
  normalized_scale = codes "ONE";
  normalized_value = some (pos 100);
  detected_reporting_basis = codes "solo";
  source_document_id = 30;
  source_document_version_id = 31;
  validation_status = ValidationStatus.normalized;
  review_status = ReviewStatus.pending;
  value_origin = [];
  conflicting_fact_id = none;
  conflict_detected_at = none;
  conflict_reason = none;
  detected_value_hash = none;
  suggested_metric_code = none;
  confidence_score = 650;
  warning_codes = [];
  idempotency_hash = none;
}

abbrev other_candidate : FinancialFactCandidate
other_candidate = record candidate { id = 4; normalized_value = some (pos 120) }

abbrev evidence_of : ℕ → CandidateEvidence
evidence_of id = record {
  id = 40;
  organization_id = 1;
  candidate_id = id;
  source_document_version_id = 31;
  page_number = none;
  row_index = some (pos 0);
  column_index = some (pos 2);
  bounding_box = dict end;
}

abbrev tables : FactTables
tables = record {
  candidates = candidate ∷ other_candidate ∷ [];
  evidence = evidence_of 3 ∷ evidence_of 4 ∷ [];
  document_versions =
      record {
        id = 31;
        organization_id = 1;
        document_id = 30;
        declared_mime_type = codes "text/csv";
        detected_mime_type = codes "text/csv";
      }
      ∷ [];
  metric_definitions =
      record { id = 9; metric_code = codes "TOTAL_ASSETS"; canonical_name = codes "Total assets" }
      ∷ [];
  metric_aliases = [];
  facts = [];
  decisions = [];
  audit_log = [];
}

abbrev arguments : Reviewing
arguments = record {
  organization_id = 1;
  candidate_id = 3;
  reviewer_user_id = 8;
  target_reporting_basis = none;
  notes = none;
  fact_id = 50;
  now = 100;
}

abbrev other_arguments : Reviewing
other_arguments = record arguments { candidate_id = 4; fact_id = 51; now = 200 }

-- The second candidate conflicts, and then supersedes the first one's fact.
abbrev calls : List Call
calls = approve other_arguments ∷ revise 50 other_arguments ∷ []

abbrev approved_tables : FactTables
approved_tables = (call platform (approve arguments) tables).0

approves_first : call platform (approve arguments) tables ≡ (approved_tables, ok tt)
unfolding eq_int is_page is_index has_key is_box text_or is_located_cell is_located is_version_of
    version_is_evidence verify_row verify_rows is_evidence_for resolve_basis
    verify_evidence_and_basis is_candidate is_pending is_conflicted key_of same_key is_active_of
    candidate_key one_or_none decimal_or new_fact set_candidate mark_approved mark_rejected
    mark_conflicted add_fact record_decision record_audit notes_or is_in_force closed
    is_other_target has_metric_id finish decision settle_approval corroborate publish_fact
    approve_with approve_pending approve_candidate supersede revise_fact revise_candidate
    approve_candidate_as_revision reject_candidate returned call call_all is_in starts_with lower
    upper to_lower to_upper eq_text is_member get_key record_event clean_payload
approves_first = refl

values_in_turn :
    map {B = ℤ × Option ℕ}
      (λ f. (f.normalized_value, f.valid_to))
      (call_all platform calls approved_tables).facts
    ≡ (pos 100, some 200) ∷ (pos 120, none) ∷ []
unfolding eq_int is_page is_index has_key is_box text_or is_located_cell is_located is_version_of
    version_is_evidence verify_row verify_rows is_evidence_for resolve_basis
    verify_evidence_and_basis is_candidate is_pending is_conflicted key_of same_key is_active_of
    candidate_key one_or_none decimal_or new_fact set_candidate mark_approved mark_rejected
    mark_conflicted add_fact record_decision record_audit notes_or is_in_force closed
    is_other_target has_metric_id finish decision settle_approval corroborate publish_fact
    approve_with approve_pending approve_candidate supersede revise_fact revise_candidate
    approve_candidate_as_revision reject_candidate returned call call_all is_in starts_with lower
    upper to_lower to_upper eq_text is_member get_key record_event clean_payload
values_in_turn = refl

conflict_is_raised :
    (call platform (approve other_arguments) approved_tables).1
    ≡ err ReviewError.fact_value_conflict
unfolding eq_int is_page is_index has_key is_box text_or is_located_cell is_located is_version_of
    version_is_evidence verify_row verify_rows is_evidence_for resolve_basis
    verify_evidence_and_basis is_candidate is_pending is_conflicted key_of same_key is_active_of
    candidate_key one_or_none decimal_or new_fact set_candidate mark_approved mark_rejected
    mark_conflicted add_fact record_decision record_audit notes_or is_in_force closed
    is_other_target has_metric_id finish decision settle_approval corroborate publish_fact
    approve_with approve_pending approve_candidate supersede revise_fact revise_candidate
    approve_candidate_as_revision reject_candidate returned call call_all is_in starts_with lower
    upper to_lower to_upper eq_text is_member get_key record_event clean_payload
conflict_is_raised = refl

abbrev fact : FinancialFact
fact = record {
  id = 50;
  organization_id = 1;
  institution_id = 20;
  reporting_period_id = 21;
  metric_definition_id = 9;
  metric_code = codes "TOTAL_ASSETS";
  value = pos 100;
  currency = codes "TRY";
  unit = codes "CURRENCY";
  scale = codes "ONE";
  normalized_value = pos 100;
  reporting_basis = codes "SOLO";
  source_candidate_id = 3;
  source_document_id = 30;
  review_status = codes "HUMAN_VERIFIED";
  verified_by_user_id = some 8;
  verified_at = 100;
  supersedes_fact_id = none;
  valid_from = 100;
  valid_to = none;
  value_origin = codes "SOURCE_REPORTED";
}

abbrev filled : FactTables
filled = record tables { facts = fact ∷ [] }

filled-ActiveUnique : ActiveUnique filled.facts
filled-ActiveUnique k = one_row (is_active_of k fact)
  where
    one_row : (b : Bool) → length (if b then fact ∷ [] else []) ≤ 1
    one_row true = omega arith
    one_row false = omega arith

filled-PrimaryKey : PrimaryKey filled.facts
filled-PrimaryKey id organization = one_row (is_in_force id organization fact)
  where
    one_row : (b : Bool) → length (if b then fact ∷ [] else []) ≤ 1
    one_row true = omega arith
    one_row false = omega arith

call_all-ActiveUnique_example : ActiveUnique (call_all platform calls filled).facts
call_all-ActiveUnique_example = call_all-ActiveUnique platform calls filled filled-ActiveUnique

call_all-Keeps_example : Keeps filled.facts (call_all platform calls filled).facts
call_all-Keeps_example = call_all-Keeps platform calls filled

call-LedgerStep_example :
    LedgerStep
      (ledger filled.facts)
      (ledger (call platform (revise 50 other_arguments) filled).0.facts)
call-LedgerStep_example =
    call-LedgerStep platform (revise 50 other_arguments) filled filled-ActiveUnique
      filled-PrimaryKey

reviewed_once_example :
    call platform (reject (codes "TYPO") arguments) (call_all platform calls approved_tables)
    ≡ (call_all platform calls approved_tables, err ReviewError.candidate_already_reviewed)
reviewed_once_example =
    reviewed_once platform (approve arguments) (reject (codes "TYPO") arguments) calls tables
      approved_tables approves_first refl refl

approved-IsSupported_example :
    (c : FinancialFactCandidate) × (candidate_of (approve arguments) tables ≡ some c)
    × IsSupported 1 c tables
approved-IsSupported_example =
    approved-IsSupported platform (approve arguments) tables approved_tables refl approves_first
