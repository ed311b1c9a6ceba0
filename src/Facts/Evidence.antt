-- ===== src/Facts/Evidence.antt =====
-- `_verify_evidence_and_basis` of services/api/app/services/financial_fact_service.py: a candidate
-- needs evidence that leads to its document, with the coordinates that the document's format has,
-- and a reporting basis. `str.lower` and `str.upper` are those of ASCII.
use finance_intelligence.Orchestration.Store.{first_where, is_null}
use finance_intelligence.Prelude.Ascii.{is_in, lower, upper, codes, is_member, eq_text}
use finance_intelligence.Audit.{dict, Value, get_key, Fields}
use finance_intelligence.Prelude.{
  Bool, List, Option, Result, String, [], all, err, false, if◌then◌else◌, is_empty, leb, none, not,
  ok, raise_if, select, some, true, ℕ, ◌&&◌, ◌==◌, ◌>>=◌, ◌>>◌, ◌||◌, ◌∷◌,
}
use finance_intelligence.Facts.{
  ℤ, pos, CandidateEvidence, DocumentVersion, FinancialFactCandidate, FactTables, ReviewError,
}

unfoldable pub is_page : Option ℤ → Bool
is_page (some (pos n)) = leb 1 n
is_page _ = false

-- `index is not None and index >= 0`.
unfoldable pub is_index : Option ℤ → Bool
is_index (some (pos n)) = true
is_index _ = false

-- `key in d`.
unfoldable pub has_key : Fields → String → Bool
unfolding get_key
has_key fs key = not (is_null (get_key (codes key) fs))

unfoldable pub is_box : Value → Bool
unfolding has_key
is_box (dict fs) = all (has_key fs) ("x0" ∷ "y0" ∷ "x1" ∷ "y1" ∷ [])
is_box _ = false

-- `a or b` on texts.
unfoldable pub text_or : List ℕ → List ℕ → List ℕ
text_or a b = if is_empty a then b else a

unfoldable pub is_located_cell : CandidateEvidence → Bool
unfolding is_index
is_located_cell ev = is_index ev.row_index && is_index ev.column_index

-- The coordinates that the format of the document asks for.
unfoldable pub is_located : List ℕ → CandidateEvidence → Bool
unfolding is_in is_page is_box is_located_cell
is_located mime ev =
    if is_in (codes "pdf") mime
    then is_page ev.page_number && is_box ev.bounding_box
    else (if is_in (codes "sheet") mime
          || is_in (codes "excel") mime
          || is_in (codes "spreadsheet") mime
        then is_located_cell ev
        else if is_in (codes "csv") mime
        then is_located_cell ev
        else true)

unfoldable pub is_version_of : ℕ → ℕ → DocumentVersion → Bool
is_version_of id organization v = v.id == id && v.organization_id == organization

unfoldable pub version_is_evidence :
    FinancialFactCandidate → CandidateEvidence → DocumentVersion → Result ReviewError (Unit {0})
unfolding lower text_or is_located
version_is_evidence c ev v =
    raise_if (not (v.document_id == c.source_document_id)) ReviewError.evidence_lineage_incomplete
    >> raise_if (not (is_located (lower (text_or v.detected_mime_type v.declared_mime_type)) ev))
        ReviewError.evidence_lineage_incomplete

-- `scalar_one_or_none()`, and the error where there is no row.
abbrev pub or_raise {ℓ} : {A : Type ℓ} → ReviewError → Option A → Result ReviewError A
or_raise e none = err e
or_raise e (some a) = ok a

-- One row of evidence.
unfoldable pub verify_row :
    ℕ
    → FinancialFactCandidate
    → List DocumentVersion
    → CandidateEvidence
    → Result ReviewError (Unit {0})
unfolding version_is_evidence is_version_of
verify_row organization c versions ev =
    raise_if (not (ev.organization_id == organization)) ReviewError.evidence_source_mismatch
    >> raise_if (not (ev.source_document_version_id == c.source_document_version_id))
        ReviewError.evidence_lineage_incomplete
    >> (or_raise ReviewError.evidence_lineage_incomplete
          (first_where (is_version_of ev.source_document_version_id organization) versions)
        >>= version_is_evidence c ev)

unfoldable pub verify_rows :
    ℕ
    → FinancialFactCandidate
    → List DocumentVersion
    → List CandidateEvidence
    → Result ReviewError (Unit {0})
unfolding verify_row
verify_rows organization c versions [] = ok tt
verify_rows organization c versions (ev ∷ evs) =
    let rest = verify_rows organization c versions evs in
    verify_row organization c versions ev >> rest

unfoldable pub is_evidence_for : ℕ → ℕ → CandidateEvidence → Bool
is_evidence_for organization candidate ev =
    ev.organization_id == organization && ev.candidate_id == candidate

unfoldable pub resolve_basis : Option (List ℕ) → List ℕ → Result ReviewError (List ℕ)
unfolding text_or upper is_member eq_text
resolve_basis target detected =
    let basis = upper (elim target [ none ↦ detected | some t ↦ text_or t detected ]) in
    raise_if (is_empty basis || eq_text basis (codes "UNKNOWN"))
      ReviewError.reporting_basis_required
    >> raise_if (not (is_member basis (codes "SOLO" ∷ codes "CONSOLIDATED" ∷ [])))
        ReviewError.unsupported_reporting_basis
    >> ok basis

unfoldable pub verify_evidence_and_basis :
    ℕ → FinancialFactCandidate → Option (List ℕ) → FactTables → Result ReviewError (List ℕ)
unfolding is_evidence_for verify_rows resolve_basis
verify_evidence_and_basis organization c target db =
    let evidences = select (is_evidence_for organization c.id) db.evidence in
    raise_if (is_empty evidences) ReviewError.evidence_incomplete
    >> verify_rows organization c db.document_versions evidences
    >> resolve_basis target c.detected_reporting_basis
