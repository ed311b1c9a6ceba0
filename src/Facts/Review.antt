-- ===== src/Facts/Review.antt =====
-- `approve_candidate`, `approve_candidate_as_revision` and `reject_candidate` of
-- services/api/app/services/financial_fact_service.py. The identifier of a new fact and the time
-- are arguments. A call that raises leaves the tables as they were, but for the value conflict,
-- which is committed before it is raised.
use finance_intelligence.Facts.Writes.{
  candidate_key, has_metric_id, is_candidate, is_other_target, new_fact, notes_or, set_candidate,
  add_fact, is_active_of, is_in_force, is_pending, same_key, record_audit, is_conflicted, key_of,
  one_or_none, closed, mark_approved, mark_conflicted, mark_rejected, record_decision,
}
use finance_intelligence.Audit.{field, text, end}
use finance_intelligence.Facts.Evidence.{verify_evidence_and_basis, or_raise}
use finance_intelligence.Orchestration.Store.{update_where, first_where}
use finance_intelligence.Prelude.Ascii.{codes}
use finance_intelligence.Prelude.{
  List, Option, Result, err, if◌then◌else◌, none, not, ok, raise_if, select, some, ℕ, ◌&&◌, ◌++◌,
  ◌>>=◌, ◌>>◌,
}
use finance_intelligence.Facts.{
  FinancialFactCandidate, FinancialFact, FactTables, ReviewError, FactPlatform, FactReviewDecision,
  Decision, MetricDefinition, eq_int, ℤ,
}

-- The end of a call: an error before the commit, or what was committed and then returned or raised.
unfoldable pub finish {ℓ} :
    {A : Type ℓ}
    → FactTables
    → Result ReviewError (FactTables × Result ReviewError A)
    → FactTables × Result ReviewError A
finish db (ok r) = r
finish db (err e) = (db, err e)

-- The arguments that the calls share: `fact_id` is the identifier of a fact that is created.
pub record Reviewing : Type 0 where
  pub organization_id : ℕ
  pub candidate_id : ℕ
  pub reviewer_user_id : ℕ
  pub target_reporting_basis : Option (List ℕ)
  pub notes : Option (List ℕ)
  pub fact_id : ℕ
  pub now : ℕ

module _ (p : FactPlatform) (q : Reviewing) where
  unfoldable pub decision :
      Decision → Option (List ℕ) → Option (List ℕ) → Option ℕ → FactReviewDecision
  decision verdict reason notes fact = record {
    organization_id = q.organization_id;
    candidate_id = q.candidate_id;
    reviewer_user_id = q.reviewer_user_id;
    decision = verdict;
    rejection_reason_code = reason;
    decision_notes = notes;
    created_fact_id = fact;
  }

  -- The candidate is and a decision recorded.
  unfoldable pub settle_approval : List ℕ → Option (List ℕ) → ℕ → FactTables → FactTables
  unfolding set_candidate mark_approved record_decision decision
  settle_approval basis notes fact db =
      record_decision (decision Decision.approved none notes (some fact))
        (set_candidate q.candidate_id q.organization_id (mark_approved basis) db)

  -- There is a fact in force with the candidate's key.
  unfoldable pub corroborate :
      List ℕ → ℤ → FinancialFact → FactTables → FactTables × Result ReviewError FinancialFact
  unfolding eq_int settle_approval notes_or set_candidate mark_conflicted
  corroborate basis value fact db =
      if eq_int fact.normalized_value value
      then (
        settle_approval basis (some (notes_or q.notes (codes "Corroborating candidate approved")))
            fact.id db,
        ok fact,
      )
      else (
        set_candidate q.candidate_id q.organization_id (mark_conflicted p fact q.now) db,
        err ReviewError.fact_value_conflict,
      )

  -- There is none.
  unfoldable pub publish_fact :
      FinancialFactCandidate
      → MetricDefinition
      → ℤ
      → List ℕ
      → FactTables
      → FactTables × Result ReviewError FinancialFact
  unfolding new_fact add_fact settle_approval record_audit
  publish_fact c metric value basis db =
      let fact =
        new_fact q.fact_id q.organization_id q.reviewer_user_id q.now c metric value basis none in
      let payload =
        field (codes "created_fact_id") (text (p.text_of_uuid q.fact_id))
          (field (codes "metric_code") (text metric.metric_code) end) in
      (
        record_audit p q.organization_id "FACT_CANDIDATE_APPROVED" "financial_fact_candidate" c.id
            q.reviewer_user_id payload (settle_approval basis q.notes q.fact_id (add_fact fact db)),
        ok fact,
      )

  unfoldable pub approve_with :
      FinancialFactCandidate
      → MetricDefinition
      → ℤ
      → List ℕ
      → FactTables
      → Option FinancialFact
      → FactTables × Result ReviewError FinancialFact
  unfolding corroborate publish_fact
  approve_with c metric value basis db none = publish_fact c metric value basis db
  approve_with c metric value basis db (some fact) = corroborate basis value fact db

  -- A candidate that is pending.
  unfoldable pub approve_pending :
      FinancialFactCandidate
      → FactTables
      → Result ReviewError (FactTables × Result ReviewError FinancialFact)
  unfolding verify_evidence_and_basis has_metric_id candidate_key is_active_of one_or_none
      approve_with
  approve_pending c db =
      or_raise ReviewError.cannot_approve_unparsed_value c.normalized_value >>= λ value.
      or_raise ReviewError.cannot_approve_without_metric_definition c.metric_definition_id
      >>= λ metric_id.
          verify_evidence_and_basis q.organization_id c q.target_reporting_basis db >>= λ basis.
          or_raise ReviewError.no_result_found
            (first_where (has_metric_id metric_id) db.metric_definitions)
          >>= λ metric.
              one_or_none
                (select (is_active_of (candidate_key q.organization_id c metric_id basis)) db.facts)
              >>= λ existing. ok (approve_with c metric value basis db existing)

  unfoldable pub approve_candidate : FactTables → FactTables × Result ReviewError FinancialFact
  unfolding finish is_candidate is_pending approve_pending
  approve_candidate db = finish db (
      or_raise ReviewError.candidate_not_found
        (first_where (is_candidate q.candidate_id q.organization_id) db.candidates)
      >>= λ c.
          raise_if (not (is_pending c.review_status)) ReviewError.candidate_already_reviewed
          >> approve_pending c db)

  -- What is written once the fact in force is found to be the one that is revised.
  unfoldable pub supersede :
      FinancialFactCandidate
      → MetricDefinition
      → ℤ
      → List ℕ
      → FinancialFact
      → FactTables
      → FactTables × Result ReviewError FinancialFact
  unfolding new_fact add_fact settle_approval record_audit closed is_in_force notes_or
  supersede c metric value basis old db =
      let fact =
        new_fact q.fact_id q.organization_id q.reviewer_user_id q.now c metric value basis
          (some old.id) in
      let db' = record db {
        facts = update_where (is_in_force old.id q.organization_id) (closed q.now) db.facts;
      } in
      let note = codes "Explicit revision superseding fact " ++ p.text_of_uuid old.id in
      let payload =
        field (codes "superseded_by_fact_id") (text (p.text_of_uuid q.fact_id))
          (field (codes "candidate_id") (text (p.text_of_uuid c.id)) end) in
      (
        record_audit p q.organization_id "FINANCIAL_FACT_SUPERSEDED" "financial_fact" old.id
            q.reviewer_user_id payload
            (settle_approval basis (some (notes_or q.notes note)) q.fact_id (add_fact fact db')),
        ok fact,
      )

  -- The checks of the fact that is to be superseded.
  unfoldable pub revise_fact :
      FinancialFactCandidate
      → ℕ
      → ℤ
      → List ℕ
      → FactTables
      → FinancialFact
      → Result ReviewError (FactTables × Result ReviewError FinancialFact)
  unfolding supersede
  revise_fact c metric_id value basis db old =
      raise_if (not (same_key (candidate_key q.organization_id c metric_id basis) (key_of old)))
        ReviewError.revision_natural_key_mismatch
      >> (raise_if (eq_int old.normalized_value value) ReviewError.revision_value_unchanged
          >> (or_raise ReviewError.no_result_found
                (first_where (has_metric_id metric_id) db.metric_definitions)
              >>= λ metric. ok (supersede c metric value basis old db)))

  unfoldable pub revise_candidate :
      ℕ
      → FinancialFactCandidate
      → FactTables
      → Result ReviewError (FactTables × Result ReviewError FinancialFact)
  unfolding is_other_target verify_evidence_and_basis is_in_force revise_fact
  revise_candidate expected c db =
      or_raise ReviewError.cannot_approve_invalid_candidate c.normalized_value >>= λ value.
      or_raise ReviewError.cannot_approve_invalid_candidate c.metric_definition_id >>= λ metric_id.
      raise_if (is_other_target c.conflicting_fact_id expected) ReviewError.revision_target_mismatch
      >> (verify_evidence_and_basis q.organization_id c q.target_reporting_basis db >>= λ basis.
          or_raise ReviewError.revision_concurrency_conflict
            (first_where (is_in_force expected q.organization_id) db.facts)
          >>= revise_fact c metric_id value basis db)

  unfoldable pub approve_candidate_as_revision :
      ℕ → FactTables → FactTables × Result ReviewError FinancialFact
  unfolding finish is_candidate is_pending is_conflicted revise_candidate
  approve_candidate_as_revision expected db = finish db (
      or_raise ReviewError.candidate_not_found
        (first_where (is_candidate q.candidate_id q.organization_id) db.candidates)
      >>= λ c.
          raise_if (not (is_pending c.review_status) && not (is_conflicted c.validation_status))
            ReviewError.candidate_already_reviewed
          >> revise_candidate expected c db)

  unfoldable pub reject_candidate :
      List ℕ → FactTables → FactTables × Result ReviewError FinancialFactCandidate
  unfolding finish is_candidate is_pending set_candidate mark_rejected record_decision decision
      record_audit
  reject_candidate reason db = finish db (
      or_raise ReviewError.candidate_not_found
        (first_where (is_candidate q.candidate_id q.organization_id) db.candidates)
      >>= λ c.
          raise_if (not (is_pending c.review_status)) ReviewError.candidate_already_reviewed
          >> ok (
            record_audit p q.organization_id "FACT_CANDIDATE_REJECTED" "financial_fact_candidate"
                c.id q.reviewer_user_id (field (codes "reason_code") (text reason) end)
                (record_decision (decision Decision.rejected (some reason) q.notes none)
                  (set_candidate q.candidate_id q.organization_id mark_rejected db)),
            ok (mark_rejected c),
          ))
