-- ===== src/Facts/Effects.antt =====
-- Every call of services/api/app/services/financial_fact_service.py is one of the steps of
-- Facts/Calls, on every branch.
use mathlib.Core.Path.{subst}
use finance_intelligence.Orchestration.Store.Rows.{first_where-passes}
use finance_intelligence.Facts.Writes.{
  is_candidate, is_active_of, new_fact, one_or_none, record_audit, key_of, add_fact,
  record_decision, is_in_force, set_candidate, candidate_key, same_key, has_metric_id,
  is_other_target, is_pending, is_conflicted,
}
use finance_intelligence.Orchestration.Store.{first_where}
use finance_intelligence.Facts.Review.{
  Reviewing, approve_candidate, approve_candidate_as_revision, approve_with, supersede, finish,
  publish_fact, reject_candidate, settle_approval, corroborate, approve_pending, revise_candidate,
  revise_fact,
}
use finance_intelligence.Prelude.{
  AtOk, Bool, Bool-cases, List, Option, Result, [], err, inl, inr, none, ok, refl, ℕ, ◌∷◌, ◌≡◌,
  false, true, select, some, AtOk-bind, AtOk-then, arith, not, raise_if, raise_if-ok, sym, at_ok,
  ◌&&◌,
}
use finance_intelligence.Facts.{
  FinancialFactCandidate, FinancialFact, FactTables, ReviewError, FactPlatform, MetricDefinition,
  eq_int, ℤ,
}
use finance_intelligence.Facts.Evidence.{or_raise, verify_evidence_and_basis}
use finance_intelligence.Facts.Calls.{
  approve, revise, reject, refuses, conflicts, approves, rejects, publishes, supersedes, reviewing,
  returned, Call, Effect, call, stays,
}

pub or_raise-some :
    {A : Type 0} (e : ReviewError) (o : Option A) (a : A) → or_raise e o ≡ ok a → o ≡ some a
or_raise-some e none a h = cc
or_raise-some e (some b) a h = cc

module _ {ℓ} {A : Type ℓ} where
  pub one_or_none-none : (xs : List A) → one_or_none xs ≡ ok none → xs ≡ []
  unfolding one_or_none
  one_or_none-none [] h = refl
  one_or_none-none (x ∷ []) h = cc
  one_or_none-none (x ∷ y ∷ xs) h = cc

  finish-Effect :
      (q : Reviewing) (db : FactTables) (m : Result ReviewError (FactTables × Result ReviewError A))
      → AtOk (λ r. Effect q db (returned r)) m
      → Effect q db (returned (finish db m))
  unfolding finish returned
  finish-Effect q db (ok r) (at_ok h) = h
  finish-Effect q db (err e) h = (stays, refuses)

module _ (p : FactPlatform) (q : Reviewing) (db : FactTables) where
  approve_with-Effect :
      (c : FinancialFactCandidate) (metric : MetricDefinition) (value : ℤ) (basis : List ℕ)
      (existing : Option FinancialFact)
      → one_or_none
          (select (is_active_of (candidate_key q.organization_id c metric.id basis)) db.facts)
        ≡ ok existing
      → Effect q db (returned (approve_with p q c metric value basis db existing))
  unfolding returned approve_with publish_fact corroborate settle_approval new_fact record_audit
      add_fact record_decision set_candidate candidate_key key_of
  approve_with-Effect c metric value basis none h =
      (publishes _ refl (one_or_none-none _ h), approves basis)
  approve_with-Effect c metric value basis (some f) h =
      elim (Bool-cases (eq_int f.normalized_value value)) [
        | inl t ↦ rw t (stays, approves basis)
        | inr n ↦ rw n (stays, conflicts p f q.now)
      ]

  supersede-Effect :
      (c : FinancialFactCandidate) (metric : MetricDefinition) (value : ℤ) (basis : List ℕ)
      (old : FinancialFact)
      → first_where (is_in_force old.id q.organization_id) db.facts ≡ some old
      → same_key (candidate_key q.organization_id c metric.id basis) (key_of old) ≡ true
      → eq_int old.normalized_value value ≡ false
      → Effect q db (returned (supersede p q c metric value basis old db))
  unfolding returned supersede settle_approval new_fact record_audit add_fact record_decision
      set_candidate candidate_key key_of
  supersede-Effect c metric value basis old e k n =
      (supersedes old.id q.organization_id q.now old _ refl e k n, approves basis)

  abbrev pub Does : FactTables × Result ReviewError FinancialFact → Type 0
  Does r = Effect q db (returned r)

  metric_of :
      (id : ℕ) (metric : MetricDefinition)
      → first_where (has_metric_id id) db.metric_definitions ≡ some metric
      → metric.id ≡ id
  unfolding has_metric_id
  metric_of id metric e =
      let h = first_where-passes (has_metric_id id) db.metric_definitions metric e in ground arith

  old_of :
      (id : ℕ) (old : FinancialFact)
      → first_where (is_in_force id q.organization_id) db.facts ≡ some old
      → old.id ≡ id
  unfolding is_in_force
  old_of id old e =
      let h = first_where-passes (is_in_force id q.organization_id) db.facts old e in ground arith

  approve_pending-Effect : (c : FinancialFactCandidate) → AtOk Does (approve_pending p q c db)
  unfolding approve_pending
  approve_pending-Effect c =
      AtOk-bind Does (or_raise ReviewError.cannot_approve_unparsed_value c.normalized_value) _
        (λ v _.
          AtOk-bind Does
            (or_raise ReviewError.cannot_approve_without_metric_definition c.metric_definition_id) _
            (λ n _.
              AtOk-bind Does
                (verify_evidence_and_basis q.organization_id c q.target_reporting_basis db) _
                (λ b _.
                  AtOk-bind Does
                    (or_raise ReviewError.no_result_found
                      (first_where (has_metric_id n) db.metric_definitions))
                    _
                    (λ metric e.
                      AtOk-bind Does
                        (one_or_none
                          (select (is_active_of (candidate_key q.organization_id c n b)) db.facts))
                        _
                        (λ existing h. at_ok (
                          approve_with-Effect c metric v b existing (
                            subst
                              (λ id.
                                one_or_none (
                                  select (is_active_of (candidate_key q.organization_id c id b))
                                    db.facts)
                                ≡ ok existing)
                              (sym (
                                metric_of n metric
                                  (or_raise-some ReviewError.no_result_found _ _ e)))
                              h)))))))

  revise_fact-Effect :
      (c : FinancialFactCandidate) (n : ℕ) (value : ℤ) (basis : List ℕ) (expected : ℕ)
      (old : FinancialFact)
      → first_where (is_in_force expected q.organization_id) db.facts ≡ some old
      → AtOk Does (revise_fact p q c n value basis db old)
  unfolding revise_fact
  revise_fact-Effect c n value basis expected old e =
      AtOk-then Does
        (raise_if (not (same_key (candidate_key q.organization_id c n basis) (key_of old)))
          ReviewError.revision_natural_key_mismatch)
        _
        (λ u k.
          AtOk-then Does
            (raise_if (eq_int old.normalized_value value) ReviewError.revision_value_unchanged) _
            (λ v d.
              AtOk-bind Does
                (or_raise ReviewError.no_result_found
                  (first_where (has_metric_id n) db.metric_definitions))
                _
                (λ metric m. at_ok (
                  supersede-Effect c metric value basis old
                    (subst
                      (λ id. first_where (is_in_force id q.organization_id) db.facts ≡ some old)
                      (sym (old_of expected old e)) e)
                    (subst
                      (λ id.
                        same_key (candidate_key q.organization_id c id basis) (key_of old) ≡ true)
                      (sym (metric_of n metric (or_raise-some ReviewError.no_result_found _ _ m)))
                      (raised_not _ ReviewError.revision_natural_key_mismatch u k))
                    (raise_if-ok _ ReviewError.revision_value_unchanged v d)))))
    where
      raised_not :
          (b : Bool) (e : ReviewError) (u : Unit {0}) → raise_if (not b) e ≡ ok u → b ≡ true
      raised_not true e u h = refl
      raised_not false e u h = cc

  revise_candidate-Effect :
      (expected : ℕ) (c : FinancialFactCandidate) → AtOk Does (revise_candidate p q expected c db)
  unfolding revise_candidate
  revise_candidate-Effect expected c =
      AtOk-bind Does (or_raise ReviewError.cannot_approve_invalid_candidate c.normalized_value) _
        (λ v _.
          AtOk-bind Does
            (or_raise ReviewError.cannot_approve_invalid_candidate c.metric_definition_id) _
            (λ n _.
              AtOk-then Does
                (raise_if (is_other_target c.conflicting_fact_id expected)
                  ReviewError.revision_target_mismatch)
                _
                (λ u _.
                  AtOk-bind Does
                    (verify_evidence_and_basis q.organization_id c q.target_reporting_basis db) _
                    (λ b _.
                      AtOk-bind Does
                        (or_raise ReviewError.revision_concurrency_conflict
                          (first_where (is_in_force expected q.organization_id) db.facts))
                        _
                        (λ old e.
                          revise_fact-Effect c n v b expected old
                            (or_raise-some ReviewError.revision_concurrency_conflict _ _ e))))))

-- The row that every call begins with.
abbrev pub candidate_for : Reviewing → FactTables → Result ReviewError FinancialFactCandidate
candidate_for q db =
    or_raise ReviewError.candidate_not_found
      (first_where (is_candidate q.candidate_id q.organization_id) db.candidates)

-- Every branch of every call is one of these steps.
pub call-Effect :
    (p : FactPlatform) (q : Call) (db : FactTables) → Effect (reviewing q) db (call p q db)
unfolding call approve_candidate approve_candidate_as_revision reject_candidate set_candidate
    record_decision record_audit returned
call-Effect p (approve q) db = finish-Effect q db _ (
    AtOk-bind (Does p q db) (candidate_for q db) _ (λ c _.
      AtOk-then (Does p q db)
        (raise_if (not (is_pending c.review_status)) ReviewError.candidate_already_reviewed) _
        (λ u _. approve_pending-Effect p q db c)))
call-Effect p (revise expected q) db = finish-Effect q db _ (
    AtOk-bind (Does p q db) (candidate_for q db) _ (λ c _.
      AtOk-then (Does p q db)
        (raise_if (not (is_pending c.review_status) && not (is_conflicted c.validation_status))
          ReviewError.candidate_already_reviewed)
        _ (λ u _. revise_candidate-Effect p q db expected c)))
call-Effect p (reject reason q) db = finish-Effect q db _ (
    AtOk-bind (λ r. Effect q db (returned r)) (candidate_for q db) _
      (λ c _.
        AtOk-then (λ r. Effect q db (returned r))
          (raise_if (not (is_pending c.review_status)) ReviewError.candidate_already_reviewed) _
          (λ u _. at_ok (stays, rejects))))
