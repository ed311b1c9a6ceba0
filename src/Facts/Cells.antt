-- ===== src/Facts/Cells.antt =====
-- What `create_candidate` of services/api/app/services/fact_candidate_service.py is given, and how it
-- reads the location of a cell.

use finance_intelligence.Facts.Evidence.{has_key}
use finance_intelligence.Prelude.Ascii.{codes, eq_text}
use finance_intelligence.Facts.Decimal.{Decimal}
use finance_intelligence.Facts.Normalization.{
  NumberWarning, empty_value, missing_value, forbidden_exponent_or_special_float,
  ambiguous_number_format, unparsable_number,
}
use finance_intelligence.Audit.{
  Fields, Value, end, get_key, dict, number, field, text, null, flag, uuid, items, nil, item,
}
use finance_intelligence.Facts.{
  FactPlatform, FinancialFactCandidate, MetricDefinition, ReviewError, ℤ, pos,
}
use finance_intelligence.Prelude.{
  Bool, List, Option, Result, [], all, err, false, if◌then◌else◌, is_empty, none, not, ok, some,
  true, ℕ, ◌&&◌, ◌==◌, ◌∷◌,
}

-- What the service takes from the database and the language's libraries: `ILIKE`, the value that a
-- `Numeric(28, 6)` stores, and `json.dumps(…, sort_keys=True)`.
pub record CandidatePlatform : Type 0 where
  pub platform : FactPlatform
  pub ilike : List ℕ → List ℕ → Bool
  pub numeric : Decimal → Option ℤ
  pub dumps_sorted : Fields → List ℕ

-- The arguments of `create_candidate`; `id` is the identifier of a candidate that is created.
pub record Cell : Type 0 where
  pub id : ℕ
  pub evidence_id : ℕ
  pub organization_id : ℕ
  pub institution_id : ℕ
  pub reporting_period_id : ℕ
  pub raw_label : List ℕ
  pub raw_value : List ℕ
  pub source_document_id : ℕ
  pub source_document_version_id : ℕ
  pub raw_currency : List ℕ
  pub raw_unit : List ℕ
  pub raw_scale : List ℕ
  pub detected_reporting_basis : List ℕ
  pub source_location : Option Fields
  pub extraction_method : List ℕ
  pub metric_code : Option (List ℕ)

-- The text of a warning of the normalisation.
unfoldable pub warning_text : NumberWarning → List ℕ
warning_text empty_value = codes "EMPTY_VALUE"
warning_text missing_value = codes "MISSING_VALUE"
warning_text forbidden_exponent_or_special_float = codes "FORBIDDEN_EXPONENT_OR_SPECIAL_FLOAT"
warning_text ambiguous_number_format = codes "AMBIGUOUS_NUMBER_FORMAT"
warning_text unparsable_number = codes "UNPARSABLE_NUMBER"

-- `source_location or {}`.
unfoldable pub location : Cell → Fields
location cell = elim cell.source_location [ none ↦ end | some fs ↦ fs ]

abbrev pub is_truthy_value : Option Value → Bool
is_truthy_value none = false
is_truthy_value (some null) = false
is_truthy_value (some (flag b)) = b
is_truthy_value (some (number n)) = not (n == 0)
is_truthy_value (some (text s)) = not (is_empty s)
is_truthy_value (some (uuid n)) = true
is_truthy_value (some (dict end)) = false
is_truthy_value (some (dict (field k v fs))) = true
is_truthy_value (some (items nil)) = false
is_truthy_value (some (items (item v vs))) = true

-- The value of an integer column.
unfoldable pub integer : Option Value → Result ReviewError (Option ℤ)
integer none = ok none
integer (some null) = ok none
integer (some (number n)) = ok (some (pos n))
integer (some v) = err ReviewError.invalid_column

-- `location.get("page_number") or location.get("page") or 1`.
unfoldable pub page_of : Fields → Option Value
page_of fs =
    let first = get_key (codes "page_number") fs in
    let second = get_key (codes "page") fs in
    if is_truthy_value first
    then first
    else (if is_truthy_value second then second else some (number 1))

unfoldable pub box_of : Fields → Value
box_of fs = elim (get_key (codes "bounding_box") fs) [
  | none ↦ fallback
  | some v ↦ if is_truthy_value (some v) then v else fallback
]
  where
    fallback : Value
    fallback = if all (has_key fs) ("x0" ∷ "y0" ∷ "x1" ∷ "y1" ∷ []) then dict fs else dict end

unfoldable pub has_hash : ℕ → List ℕ → FinancialFactCandidate → Bool
has_hash organization hash c =
    c.organization_id == organization
    && elim c.idempotency_hash [ none ↦ false | some h ↦ eq_text h hash ]

abbrev pub has_code : List ℕ → MetricDefinition → Bool
has_code code m = eq_text m.metric_code code
