-- ===== src/Facts/Support.antt =====
-- What stands behind a fact: the evidence that `_verify_evidence_and_basis` of
-- services/api/app/services/financial_fact_service.py asks for.
use finance_intelligence.Facts.Writes.{is_candidate, is_other_target, is_pending, is_conflicted}
use finance_intelligence.Facts.Review.{
  finish, Reviewing, approve_candidate, approve_candidate_as_revision, approve_pending,
  revise_candidate,
}
use finance_intelligence.Prelude.Ascii.{lower}
use finance_intelligence.Facts.Effects.{or_raise-some, candidate_for}
use finance_intelligence.Prelude.Ascii.{lower}
use finance_intelligence.Orchestration.Store.Rows.{All}
use finance_intelligence.Orchestration.Store.{first_where}
use finance_intelligence.Facts.{
  FinancialFactCandidate, ReviewError, DocumentVersion, FactTables, CandidateEvidence, FactPlatform,
  FinancialFact,
}
use finance_intelligence.Prelude.{
  at_ok, Bool, List, [], arith, bind-ok, false, is_empty, not, ok, raise_if, refl, select, some,
  then-ok, true, ℕ, ◌==◌, ◌>>=◌, ◌>>◌, ◌∷◌, ◌≡◌, AtOk, AtOk-bind, AtOk-const, AtOk-then, Option,
  Result, err, raise_if-ok, ◌&&◌,
}
use finance_intelligence.Facts.Calls.{approve, revise, reject, Call, call, returned, reviewing}
use finance_intelligence.Facts.Evidence.{
  or_raise, is_evidence_for, verify_row, verify_rows, version_is_evidence, is_version_of,
  is_located, text_or, verify_evidence_and_basis, resolve_basis,
}

-- A row of evidence leads to the document of its candidate, with the coordinates that the format of
-- the document has.
abbrev pub IsTraced : ℕ → FinancialFactCandidate → List DocumentVersion → CandidateEvidence → Type 0
IsTraced organization c versions ev =
    (ev.source_document_version_id ≡ c.source_document_version_id)
    × (v : DocumentVersion) × (first_where
          (is_version_of ev.source_document_version_id organization) versions
        ≡ some v)
    × (v.document_id ≡ c.source_document_id)
    × (is_located (lower (text_or v.detected_mime_type v.declared_mime_type)) ev ≡ true)

-- The candidate has evidence, and each row of it is traced.
abbrev pub IsSupported : ℕ → FinancialFactCandidate → FactTables → Type 0
IsSupported organization c db =
    (is_empty (select (is_evidence_for organization c.id) db.evidence) ≡ false)
    × All (IsTraced organization c db.document_versions)
        (select (is_evidence_for organization c.id) db.evidence)

not-ok : (b : Bool) (e : ReviewError) (u : Unit {0}) → raise_if (not b) e ≡ ok u → b ≡ true
not-ok true e u h = refl
not-ok false e u h = cc

module _ (organization : ℕ) (c : FinancialFactCandidate) (versions : List DocumentVersion) where
  verify_row-IsTraced :
      (ev : CandidateEvidence) (u : Unit {0})
      → verify_row organization c versions ev ≡ ok u
      → IsTraced organization c versions ev
  unfolding verify_row version_is_evidence
  verify_row-IsTraced ev u h =
      let lineage = ReviewError.evidence_lineage_incomplete in
      let same =
        raise_if (not (ev.source_document_version_id == c.source_document_version_id)) lineage in
      let tenant =
        raise_if (not (ev.organization_id == organization)) ReviewError.evidence_source_mismatch in
      let row =
        or_raise lineage
          (first_where (is_version_of ev.source_document_version_id organization) versions) in
      let (_, first, rest) = then-ok (tenant >> same) (row >>= version_is_evidence c ev) u h in
      let (w, _, second) = then-ok tenant same _ first in
      let (v, found, checked) = bind-ok row (version_is_evidence c ev) u rest in
      let (x, third, fourth) =
        then-ok (raise_if (not (v.document_id == c.source_document_id)) lineage)
          (raise_if
            (not (is_located (lower (text_or v.detected_mime_type v.declared_mime_type)) ev))
            lineage)
          u checked in
      let p =
        not-ok (ev.source_document_version_id == c.source_document_version_id) lineage _ second in
      let q = not-ok (v.document_id == c.source_document_id) lineage x third in
      (ground arith, v, or_raise-some lineage _ v found, ground arith, not-ok _ lineage u fourth)

  verify_rows-IsTraced :
      (evs : List CandidateEvidence) (u : Unit {0})
      → verify_rows organization c versions evs ≡ ok u
      → All (IsTraced organization c versions) evs
  unfolding verify_rows
  verify_rows-IsTraced [] u h = tt
  verify_rows-IsTraced (ev ∷ evs) u h =
      let (v, first, rest) =
        then-ok (verify_row organization c versions ev) (verify_rows organization c versions evs) u
          h in
      (verify_row-IsTraced ev v first, verify_rows-IsTraced evs u rest)

verify-IsSupported :
    (organization : ℕ) (c : FinancialFactCandidate) (target : Option (List ℕ)) (db : FactTables)
    (basis : List ℕ)
    → verify_evidence_and_basis organization c target db ≡ ok basis
    → IsSupported organization c db
unfolding verify_evidence_and_basis
verify-IsSupported organization c target db basis h =
    let evs = select (is_evidence_for organization c.id) db.evidence in
    let some_row = raise_if (is_empty evs) ReviewError.evidence_incomplete in
    let rows = verify_rows organization c db.document_versions evs in
    let (_, first, _) =
      then-ok (some_row >> rows) (resolve_basis target c.detected_reporting_basis) basis h in
    let (u, here, traced) = then-ok some_row rows _ first in
    (
      raise_if-ok _ ReviewError.evidence_incomplete u here,
      verify_rows-IsTraced organization c db.document_versions evs _ traced,
    )

module _ (p : FactPlatform) (q : Reviewing) (db : FactTables) (c : FinancialFactCandidate)
    (S : Type 0) (k : IsSupported q.organization_id c db → S) where
  approve_pending-supported : AtOk (λ _. S) (approve_pending p q c db)
  unfolding approve_pending
  approve_pending-supported =
      AtOk-bind (λ _. S) (or_raise ReviewError.cannot_approve_unparsed_value c.normalized_value) _
        (λ v _.
          AtOk-bind (λ _. S)
            (or_raise ReviewError.cannot_approve_without_metric_definition c.metric_definition_id) _
            (λ n _.
              AtOk-bind (λ _. S)
                (verify_evidence_and_basis q.organization_id c q.target_reporting_basis db) _
                (λ b e.
                  AtOk-const _
                    (k (verify-IsSupported q.organization_id c q.target_reporting_basis db b e)))))

  revise_candidate-supported : (expected : ℕ) → AtOk (λ _. S) (revise_candidate p q expected c db)
  unfolding revise_candidate
  revise_candidate-supported expected =
      AtOk-bind (λ _. S) (or_raise ReviewError.cannot_approve_invalid_candidate c.normalized_value)
        _
        (λ v _.
          AtOk-bind (λ _. S)
            (or_raise ReviewError.cannot_approve_invalid_candidate c.metric_definition_id) _
            (λ n _.
              AtOk-then (λ _. S)
                (raise_if (is_other_target c.conflicting_fact_id expected)
                  ReviewError.revision_target_mismatch)
                _
                (λ u _.
                  AtOk-bind (λ _. S)
                    (verify_evidence_and_basis q.organization_id c q.target_reporting_basis db) _
                    (λ b e. AtOk-const _ (
                      k (
                        verify-IsSupported q.organization_id c q.target_reporting_basis db b e))))))

finish-ok :
    (S : Type 0) (db db' : FactTables)
    (m : Result ReviewError (FactTables × Result ReviewError FinancialFact))
    → AtOk (λ _. S) m
    → returned (finish db m) ≡ (db', ok tt)
    → S
unfolding finish returned
finish-ok S db db' (ok r) (at_ok s) h = s
finish-ok S db db' (err e) s h = cc

-- A call that makes a fact or confirms one.
abbrev pub is_approval : Call → Bool
is_approval (approve q) = true
is_approval (revise expected q) = true
is_approval (reject reason q) = false

-- The candidate that a call names.
abbrev pub candidate_of : Call → FactTables → Option FinancialFactCandidate
candidate_of q db =
    first_where (is_candidate (reviewing q).candidate_id (reviewing q).organization_id)
      db.candidates

-- When an approval or a revision returns, its candidate
-- was there and had at least one row of evidence, and each of its rows was about the version of the
-- document that the candidate names, that version was one of the organization's and of the
-- candidate's document, and the row had the coordinates that the format of the document asks for.
pub approved-IsSupported :
    (p : FactPlatform) (q : Call) (db db' : FactTables)
    → is_approval q ≡ true
    → call p q db ≡ (db', ok tt)
    → (c : FinancialFactCandidate) × (candidate_of q db ≡ some c)
      × IsSupported (reviewing q).organization_id c db
unfolding call approve_candidate approve_candidate_as_revision
approved-IsSupported p (approve q) db db' a h =
    let S : Type 0 =
      (c : FinancialFactCandidate) × (candidate_of (approve q) db ≡ some c)
      × IsSupported q.organization_id c db in
    finish-ok S db db' _
      (AtOk-bind (λ _. S) (candidate_for q db) _
        (λ c e.
          AtOk-then (λ _. S)
            (raise_if (not (is_pending c.review_status)) ReviewError.candidate_already_reviewed) _
            (λ u _.
              approve_pending-supported p q db c S
                (λ s. (c, or_raise-some ReviewError.candidate_not_found _ c e, s)))))
      h
approved-IsSupported p (revise expected q) db db' a h =
    let S : Type 0 =
      (c : FinancialFactCandidate) × (candidate_of (revise expected q) db ≡ some c)
      × IsSupported q.organization_id c db in
    finish-ok S db db' _
      (AtOk-bind (λ _. S) (candidate_for q db) _
        (λ c e.
          AtOk-then (λ _. S)
            (raise_if (not (is_pending c.review_status) && not (is_conflicted c.validation_status))
              ReviewError.candidate_already_reviewed)
            _
            (λ u _.
              revise_candidate-supported p q db c S
                (λ s. (c, or_raise-some ReviewError.candidate_not_found _ c e, s)) expected)))
      h
approved-IsSupported p (reject reason q) db db' a h = cc
