-- ===== src/Facts/Candidates.antt =====
-- services/api/app/services/fact_candidate_service.py: a cell of a document becomes a candidate,
-- once. The call works on two states of the tables: the one that its queries see, and the one in
-- which it inserts, when another session may have inserted the same candidate.
use finance_intelligence.Facts.Names.{normalize_scale}
use finance_intelligence.Facts.Writes.{one_or_none, has_metric_id}
use finance_intelligence.Facts.Evidence.{has_key, or_raise}
use finance_intelligence.Prelude.Ascii.{codes, eq_text, lower}
use finance_intelligence.Facts.Decimal.{Decimal}
use finance_intelligence.Facts.Normalization.{NumberParseResult, strip, parse_financial_decimal}
use finance_intelligence.Audit.{Fields, end, get_key, record_event, field, text}
use finance_intelligence.Facts.{
  FactTables, FinancialFactCandidate, MetricDefinition, ReviewError, ValidationStatus, ℤ,
  CandidateEvidence, ReviewStatus,
}
use finance_intelligence.Prelude.{
  List, Option, Result, [], err, if◌then◌else◌, is_empty, map, none, not, ok, raise_if, select,
  some, ℕ, ◌&&◌, ◌++◌, ◌==◌, ◌>>=◌, ◌>>◌, ◌||◌, ◌∷◌,
}
use finance_intelligence.Orchestration.Store.{is_null, first_where}
use finance_intelligence.Facts.Cells.{
  CandidatePlatform, Cell, has_code, has_hash, integer, location, warning_text, page_of, box_of,
}

module _ (p : CandidatePlatform) (cell : Cell) where
  unfoldable pub idempotency_hash : List ℕ
  idempotency_hash = p.platform.sha256 (
      p.platform.text_of_uuid cell.organization_id
      ++ b':' ∷ p.platform.text_of_uuid cell.source_document_version_id
      ++ b':' ∷ strip cell.raw_label
      ++ b':' ∷ strip cell.raw_value
      ++ b':' ∷ p.dumps_sorted (location cell))

  unfoldable pub existing_candidate :
      FactTables → Result ReviewError (Option FinancialFactCandidate)
  existing_candidate db =
      one_or_none (select (has_hash cell.organization_id idempotency_hash) db.candidates)

  unfoldable pub match_metric_alias : FactTables → Result ReviewError (Option MetricDefinition)
  match_metric_alias db =
      let label = lower (strip cell.raw_label) in
      one_or_none (
        select (λ a. a.organization_id == cell.organization_id && p.ilike a.alias_pattern label)
          db.metric_aliases)
      >>= λ alias. elim alias [
        | some a ↦ ok (first_where (has_metric_id a.metric_definition_id) db.metric_definitions)
        | none ↦ one_or_none (
            select (λ m. p.ilike m.metric_code label || p.ilike m.canonical_name label)
              db.metric_definitions)
      ]

  -- The metric that the caller names, which has one code, or else the one that the label names.
  unfoldable pub match_metric : FactTables → Result ReviewError (Option MetricDefinition)
  match_metric db =
      let named : Option MetricDefinition = elim cell.metric_code [
        | none ↦ none
        | some code ↦
            if is_empty code then none else first_where (has_code code) db.metric_definitions
      ] in
      elim named [ none ↦ match_metric_alias db | some m ↦ ok (some m) ]

  unfoldable pub stored : Option Decimal → Result ReviewError (Option ℤ)
  stored none = ok none
  stored (some v) = elim (p.numeric v) [
    | none ↦ err ReviewError.invalid_column
    | some n ↦ ok (some n)
  ]

  unfoldable pub scaled : Option Decimal → Result ReviewError (Option Decimal)
  scaled none = ok none
  scaled (some v) = elim (normalize_scale v cell.raw_scale) [
    | ok w ↦ ok (some w)
    | err e ↦ err ReviewError.unsupported_scale
  ]

  -- The warnings, in their order.
  unfoldable pub warnings_of : NumberParseResult → Option MetricDefinition → List (List ℕ)
  warnings_of r metric =
      map warning_text r.warning_codes
      ++ (if is_null metric then codes "UNMATCHED_METRIC_ALIAS" ∷ [] else [])
      ++ (if eq_text cell.detected_reporting_basis (codes "UNKNOWN")
          then codes "UNKNOWN_REPORTING_BASIS" ∷ []
          else [])

  unfoldable pub confidence : NumberParseResult → Option MetricDefinition → ℕ
  confidence r metric =
      if is_null metric || is_null r.value
      then 500
      else (if is_empty r.warning_codes then 850 else 650)

  unfoldable pub status_of : NumberParseResult → Option MetricDefinition → ValidationStatus
  status_of r metric =
      if is_empty (warnings_of r metric) && (not (is_null r.value) && not (is_null metric))
      then ValidationStatus.normalized
      else ValidationStatus.needs_review

  unfoldable pub new_candidate :
      NumberParseResult → Option MetricDefinition → Option ℤ → Option ℤ → FinancialFactCandidate
  new_candidate r metric parsed normalized = record {
    id = cell.id;
    organization_id = cell.organization_id;
    institution_id = cell.institution_id;
    reporting_period_id = cell.reporting_period_id;
    metric_definition_id = elim metric [ none ↦ none | some m ↦ some m.id ];
    parsed_decimal_value = parsed;
    normalized_currency = cell.raw_currency;
    normalized_unit =
        if not (is_null r.value) && r.is_percentage then codes "PERCENT" else cell.raw_unit;
    normalized_scale = cell.raw_scale;
    normalized_value = normalized;
    detected_reporting_basis = cell.detected_reporting_basis;
    source_document_id = cell.source_document_id;
    source_document_version_id = cell.source_document_version_id;
    validation_status = status_of r metric;
    review_status = ReviewStatus.pending;
    value_origin = codes "SOURCE_REPORTED";
    conflicting_fact_id = none;
    conflict_detected_at = none;
    conflict_reason = none;
    detected_value_hash = none;
    suggested_metric_code = elim metric [ none ↦ none | some m ↦ some m.metric_code ];
    confidence_score = confidence r metric;
    warning_codes = warnings_of r metric;
    idempotency_hash = some idempotency_hash;
  }

  -- The evidence of a cell that has a location.
  unfoldable pub new_evidence : Fields → Result ReviewError (List CandidateEvidence)
  new_evidence end = ok []
  new_evidence (field k v fs) =
      let place = field k v fs in
      raise_if (has_key place "col_index" || has_key place "columnIndex")
        ReviewError.legacy_lineage_field_rejected
      >> (integer (page_of place) >>= λ page. integer (get_key (codes "row_index") place) >>= λ row.
          integer (get_key (codes "column_index") place) >>= λ column. ok (
            record {
              id = cell.evidence_id;
              organization_id = cell.organization_id;
              candidate_id = cell.id;
              source_document_version_id = cell.source_document_version_id;
              page_number = page;
              row_index = row;
              column_index = column;
              bounding_box = box_of place;
            }
            ∷ []))

  -- The candidate and its evidence in one savepoint; the unique constraint on the hash sends the
  -- call to the candidate that another session has inserted.
  unfoldable pub insert_candidate :
      FinancialFactCandidate → FactTables → Result ReviewError (FactTables × FinancialFactCandidate)
  insert_candidate c db =
      elim (select (has_hash cell.organization_id idempotency_hash) db.candidates) [
        | [] ↦ new_evidence (location cell) >>= λ evidence. ok (
          record_created (record db {
            candidates = db.candidates ++ c ∷ [];
            evidence = db.evidence ++ evidence;
          }),
          c,
        )
        | d ∷ ds ↦
            one_or_none (d ∷ ds) >>= λ o. or_raise ReviewError.no_result_found o >>= λ e. ok (db, e)
      ]
    where
      record_created : FactTables → FactTables
      record_created db = record db {
        audit_log =
            (record_event p.platform.text_of_uuid p.platform.sha256 cell.organization_id
              (codes "FACT_CANDIDATE_CREATED") (codes "financial_fact_candidate") cell.id none
              (some (
                field (codes "raw_label") (text cell.raw_label)
                  (field (codes "extraction_method") (text cell.extraction_method) end)))
              db.audit_log).0;
      }

  -- `seen` is what the queries see, `db` the tables at the insertion.
  unfoldable pub create_candidate :
      FactTables → FactTables → Result ReviewError (FactTables × FinancialFactCandidate)
  create_candidate seen db = existing_candidate seen >>= λ existing. elim existing [
    | some c ↦ ok (db, c)
    | none ↦ match_metric seen >>= λ metric.
        let r = parse_financial_decimal cell.raw_value none in
        scaled r.value >>= λ normalized. stored r.value >>= λ parsed.
        stored normalized >>= λ value. insert_candidate (new_candidate r metric parsed value) db
  ]
