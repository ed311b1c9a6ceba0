-- ===== src/Facts/Writes.antt =====
-- The rows that the review of services/api/app/services/financial_fact_service.py looks for and
-- writes: the natural key of a fact, the fact that an approval creates, and the assignments to the
-- columns of a candidate and of a fact.
use finance_intelligence.Audit.{Fields, record_event}
use finance_intelligence.Facts.Evidence.{text_or}
use finance_intelligence.Orchestration.Store.{is_null, update_where}
use finance_intelligence.Prelude.Ascii.{codes, eq_text}
use finance_intelligence.Prelude.{
  Bool, List, Option, Result, String, [], err, false, none, not, ok, some, suc, true, ℕ, ◌&&◌, ◌++◌,
  ◌==◌, ◌∷◌, zero,
}
use finance_intelligence.Facts.{
  pos, negsuc, FinancialFactCandidate, FinancialFact, FactTables, ReviewError, FactPlatform,
  FactReviewDecision, MetricDefinition, ReviewStatus, ValidationStatus, ℤ,
}

unfoldable pub is_candidate : ℕ → ℕ → FinancialFactCandidate → Bool
is_candidate id organization c = c.id == id && c.organization_id == organization

unfoldable pub is_pending : ReviewStatus → Bool
is_pending ReviewStatus.pending = true
is_pending _ = false

unfoldable pub is_conflicted : ValidationStatus → Bool
is_conflicted ValidationStatus.conflicted = true
is_conflicted _ = false

-- What tells the facts of an organization apart.
pub record NaturalKey : Type 0 where
  pub organization_id : ℕ
  pub institution_id : ℕ
  pub reporting_period_id : ℕ
  pub metric_definition_id : ℕ
  pub reporting_basis : List ℕ
  pub currency : List ℕ
  pub unit : List ℕ

unfoldable pub key_of : FinancialFact → NaturalKey
key_of f = record {
  organization_id = f.organization_id;
  institution_id = f.institution_id;
  reporting_period_id = f.reporting_period_id;
  metric_definition_id = f.metric_definition_id;
  reporting_basis = f.reporting_basis;
  currency = f.currency;
  unit = f.unit;
}

unfoldable pub same_key : NaturalKey → NaturalKey → Bool
same_key k l =
    k.organization_id == l.organization_id
    && (k.institution_id == l.institution_id
        && (k.reporting_period_id == l.reporting_period_id
            && (k.metric_definition_id == l.metric_definition_id
                && (eq_text k.reporting_basis l.reporting_basis
                    && (eq_text k.currency l.currency && eq_text k.unit l.unit)))))

-- The facts of a key that are in force.
unfoldable pub is_active_of : NaturalKey → FinancialFact → Bool
unfolding same_key key_of
is_active_of k f = is_null f.valid_to && same_key k (key_of f)

-- The key of the fact that a candidate becomes.
unfoldable pub candidate_key : ℕ → FinancialFactCandidate → ℕ → List ℕ → NaturalKey
candidate_key organization c metric basis = record {
  organization_id = organization;
  institution_id = c.institution_id;
  reporting_period_id = c.reporting_period_id;
  metric_definition_id = metric;
  reporting_basis = basis;
  currency = c.normalized_currency;
  unit = c.normalized_unit;
}

-- `scalar_one_or_none()`.
unfoldable pub one_or_none {ℓ} : {A : Type ℓ} → List A → Result ReviewError (Option A)
one_or_none [] = ok none
one_or_none (x ∷ []) = ok (some x)
one_or_none (x ∷ y ∷ xs) = err ReviewError.multiple_results_found

-- `a or b` on decimals: zero is false.
unfoldable pub decimal_or : Option ℤ → ℤ → ℤ
decimal_or none b = b
decimal_or (some (pos zero)) b = b
decimal_or (some (pos (suc n))) b = pos (suc n)
decimal_or (some (negsuc n)) b = negsuc n

-- The fact that an approval creates, after the one it supersedes, if any.
unfoldable pub new_fact :
    ℕ
    → ℕ
    → ℕ
    → ℕ
    → FinancialFactCandidate
    → MetricDefinition
    → ℤ
    → List ℕ
    → Option ℕ
    → FinancialFact
unfolding decimal_or text_or
new_fact id organization reviewer now c metric value basis supersedes = record {
  id = id;
  organization_id = organization;
  institution_id = c.institution_id;
  reporting_period_id = c.reporting_period_id;
  metric_definition_id = metric.id;
  metric_code = metric.metric_code;
  value = decimal_or c.parsed_decimal_value value;
  currency = c.normalized_currency;
  unit = c.normalized_unit;
  scale = c.normalized_scale;
  normalized_value = value;
  reporting_basis = basis;
  source_candidate_id = c.id;
  source_document_id = c.source_document_id;
  review_status = codes "HUMAN_VERIFIED";
  verified_by_user_id = some reviewer;
  verified_at = now;
  supersedes_fact_id = supersedes;
  valid_from = now;
  valid_to = none;
  value_origin = text_or c.value_origin (codes "SOURCE_REPORTED");
}

-- An assignment to columns of the candidate that a call has read.
unfoldable pub set_candidate :
    ℕ → ℕ → (FinancialFactCandidate → FinancialFactCandidate) → FactTables → FactTables
unfolding is_candidate
set_candidate id organization f db = record db {
  candidates = update_where (is_candidate id organization) f db.candidates;
}

unfoldable pub mark_approved : List ℕ → FinancialFactCandidate → FinancialFactCandidate
mark_approved basis c = record c {
  review_status = ReviewStatus.approved;
  validation_status = ValidationStatus.approved;
  detected_reporting_basis = basis;
}

unfoldable pub mark_rejected : FinancialFactCandidate → FinancialFactCandidate
mark_rejected c = record c {
  review_status = ReviewStatus.rejected;
  validation_status = ValidationStatus.rejected;
}

unfoldable pub mark_conflicted :
    FactPlatform → FinancialFact → ℕ → FinancialFactCandidate → FinancialFactCandidate
mark_conflicted p fact now c = record c {
  conflicting_fact_id = some fact.id;
  conflict_detected_at = some now;
  conflict_reason = some (codes "VALUE_MISMATCH");
  detected_value_hash = some (p.sha256 (p.text_of_decimal fact.normalized_value));
  validation_status = ValidationStatus.conflicted;
}

unfoldable pub add_fact : FinancialFact → FactTables → FactTables
add_fact f db = record db { facts = db.facts ++ f ∷ [] }

unfoldable pub record_decision : FactReviewDecision → FactTables → FactTables
record_decision d db = record db { decisions = db.decisions ++ d ∷ [] }

-- `AuditService.record_event(…)`.
unfoldable pub record_audit :
    FactPlatform → ℕ → String → String → ℕ → ℕ → Fields → FactTables → FactTables
record_audit p organization event_type target_type target reviewer payload db = record db {
  audit_log =
      (record_event p.text_of_uuid p.sha256 organization (codes event_type) (codes target_type)
        target (some reviewer) (some payload) db.audit_log).0;
}

-- `notes or text`.
unfoldable pub notes_or : Option (List ℕ) → List ℕ → List ℕ
unfolding text_or
notes_or none t = t
notes_or (some s) t = text_or s t

-- The fact of a given identifier, while it is in force.
unfoldable pub is_in_force : ℕ → ℕ → FinancialFact → Bool
is_in_force id organization f =
    f.id == id && f.organization_id == organization && is_null f.valid_to

unfoldable pub closed : ℕ → FinancialFact → FinancialFact
closed now f = record f { valid_to = some now }

-- `candidate.conflicting_fact_id and candidate.conflicting_fact_id != expected`.
unfoldable pub is_other_target : Option ℕ → ℕ → Bool
is_other_target none expected = false
is_other_target (some id) expected = not (id == expected)

unfoldable pub has_metric_id : ℕ → MetricDefinition → Bool
has_metric_id id m = m.id == id
