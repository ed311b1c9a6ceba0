-- ===== src/Examples/Candidates.antt =====
-- services/api/app/services/fact_candidate_service.py: one cell of a CSV file, twice.
use finance_intelligence.Prelude.{[], err, map, none, ok, refl, some, ◌*◌, ◌∷◌, ◌≡◌}
use finance_intelligence.Facts.Evidence.{has_key}
use finance_intelligence.Facts.Writes.{one_or_none, has_metric_id}
use finance_intelligence.Facts.Decimal.{
  int_from, leading_digits, difference, opposite, exponent_digits, signed_exponent, exponent_of,
  fraction_of, is_special, unsigned_decimal, signed_decimal, decimal, negate, times, finite,
  special,
}
use finance_intelligence.Facts.Normalization.{
  no_number, strip_end, strip, starts_with_digit, is_exponent, has_exponent, is_missing,
  is_forbidden, remove_percent_word, is_percent_or_space, without, dot_is_last, after_only,
  is_decimal_place, with_point, is_hint, separated, number_of, before_parenthesis, sign_of,
  parse_figure, parse_financial_decimal,
}
use finance_intelligence.Facts.Names.{canonical, lookup, normalize_scale}
use finance_intelligence.Facts.Candidates.{
  idempotency_hash, existing_candidate, match_metric_alias, match_metric, stored, scaled,
  warnings_of, confidence, status_of, new_candidate, new_evidence, insert_candidate,
  create_candidate,
}
use finance_intelligence.Facts.Cells.{
  warning_text, location, integer, page_of, box_of, has_hash, CandidatePlatform, Cell,
}
use finance_intelligence.Prelude.Ascii.{
  is_in, starts_with, lower, upper, to_lower, to_upper, eq_text, is_member, skip_spaces, is_space,
  is_digit, after, codes,
}
use finance_intelligence.Audit.{get_key, record_event, clean_payload, number, field, end}
use finance_intelligence.Facts.{pos, FactTables, ValidationStatus, FinancialFactCandidate}
use finance_intelligence.Facts.Idempotency.{create_candidate_again, two_sessions_one_candidate}
use finance_intelligence.Examples.Facts.{platform}

-- A database whose patterns are texts, and whose columns take whole numbers.
abbrev cells : CandidatePlatform
cells = record {
  platform = platform;
  ilike = λ s t. eq_text (lower s) (lower t);
  numeric = λ d. elim d [ finite b n e ↦ some (pos (1_000_000 * n)) | special b ↦ none ];
  dumps_sorted = λ fs. elim fs [ end ↦ [] | field k v rest ↦ k ];
}

abbrev tables : FactTables
tables = record {
  candidates = [];
  evidence = [];
  document_versions = [];
  metric_definitions =
      record { id = 9; metric_code = codes "TOTAL_ASSETS"; canonical_name = codes "Total assets" }
      ∷ [];
  metric_aliases = [];
  facts = [];
  decisions = [];
  audit_log = [];
}

abbrev cell : Cell
cell = record {
  id = 3;
  evidence_id = 40;
  organization_id = 1;
  institution_id = 20;
  reporting_period_id = 21;
  raw_label = codes "Total Assets";
  raw_value = codes "1.234.567";
  source_document_id = 30;
  source_document_version_id = 31;
  raw_currency = codes "TRY";
  raw_unit = codes "CURRENCY";
  raw_scale = codes "THOUSAND";
  detected_reporting_basis = codes "SOLO";
  source_location =
      some (field (codes "row_index") (number 4) (field (codes "column_index") (number 2) end));
  extraction_method = codes "PARSER_TABLE";
  metric_code = none;
}

abbrev outcome : FactTables × FinancialFactCandidate
outcome = elim (create_candidate cells cell tables tables) [
  | ok r ↦ r
  | err e ↦ (tables, new_candidate cells cell (parse_financial_decimal [] none) none none none)
]

creates : create_candidate cells cell tables tables ≡ ok (outcome.0, outcome.1)
unfolding has_key one_or_none has_metric_id int_from leading_digits difference opposite
    exponent_digits signed_exponent exponent_of fraction_of is_special unsigned_decimal
    signed_decimal decimal negate times no_number strip_end strip starts_with_digit is_exponent
    has_exponent is_missing is_forbidden remove_percent_word is_percent_or_space without dot_is_last
    after_only is_decimal_place with_point is_hint separated number_of before_parenthesis sign_of
    parse_figure parse_financial_decimal canonical lookup normalize_scale warning_text location
    integer page_of box_of has_hash idempotency_hash existing_candidate match_metric_alias
    match_metric stored scaled warnings_of confidence status_of new_candidate new_evidence
    insert_candidate create_candidate is_in starts_with lower upper to_lower to_upper eq_text
    is_member skip_spaces is_space is_digit after get_key record_event clean_payload
creates = refl

-- The figure is read in thousands, the candidate is normalized, and its evidence keeps the row.
reads_cell :
    (outcome.1.normalized_value ≡ some (pos 1_234_567_000_000_000))
    × (outcome.1.validation_status ≡ ValidationStatus.normalized)
    × (map (λ e. e.row_index) outcome.0.evidence ≡ some (pos 4) ∷ [])
unfolding has_key one_or_none has_metric_id int_from leading_digits difference opposite
    exponent_digits signed_exponent exponent_of fraction_of is_special unsigned_decimal
    signed_decimal decimal negate times no_number strip_end strip starts_with_digit is_exponent
    has_exponent is_missing is_forbidden remove_percent_word is_percent_or_space without dot_is_last
    after_only is_decimal_place with_point is_hint separated number_of before_parenthesis sign_of
    parse_figure parse_financial_decimal canonical lookup normalize_scale warning_text location
    integer page_of box_of has_hash idempotency_hash existing_candidate match_metric_alias
    match_metric stored scaled warnings_of confidence status_of new_candidate new_evidence
    insert_candidate create_candidate is_in starts_with lower upper to_lower to_upper eq_text
    is_member skip_spaces is_space is_digit after get_key record_event clean_payload
reads_cell = (refl, refl, refl)

two_sessions_one_candidate_example :
    create_candidate cells (record cell { id = 5; evidence_id = 41 }) tables outcome.0
    ≡ ok (outcome.0, outcome.1)
two_sessions_one_candidate_example =
    two_sessions_one_candidate cells cell 5 41 tables tables outcome.0 outcome.1 creates

create_candidate_again_example :
    create_candidate cells (record cell { id = 5; evidence_id = 41 }) outcome.0 outcome.0
    ≡ ok (outcome.0, outcome.1)
create_candidate_again_example =
    create_candidate_again cells cell 5 41 tables outcome.0 outcome.1 creates
