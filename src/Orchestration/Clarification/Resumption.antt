-- ===== src/Orchestration/Clarification/Resumption.antt =====
-- The job of an answered question (services/api/app/services/clarification_service.py) against the
-- functions that hand jobs to workers
-- (services/api/alembic/versions/031_analysis_job_claim_authority.py).
use finance_intelligence.Orchestration.Clarification.Answered.{
  answers, asks, run_by, run_by-Answered,
}
use finance_intelligence.Orchestration.Clarification.Calls.{Call}
use finance_intelligence.Orchestration.Claims.Fencing.{claim_inv, recover_inv}
use finance_intelligence.Orchestration.Claims.{
  recover_next_stale_analysis_job, is_stale, is_recoverable_status, lapsed_before, is_received,
  ClaimTables, ClaimedAnalysisJob, claim_next_analysis_job, is_fresh, is_older,
}
use finance_intelligence.Prelude.{
  ==_iff, Bool-cases, Result, Result-cases, err, inl, inr, ok, some, ℕ, ◌≡◌, List, String, arith,
  false, not, refl, ◌&&◌, ◌≢◌, Option-cases, [], true, ◌==◌, ◌∷◌,
}
use mathlib.Core.Path.{subst}
use finance_intelligence.Orchestration.Store.{
  first_where, AnalysisJob, has_id, AnalysisAttempt, is_null, update_where,
}
use finance_intelligence.Orchestration.Store.Rows.{first_where-passes, All, not_picked}
use finance_intelligence.Orchestration.StateMachine.{AnalysisJobStatus}
use finance_intelligence.Orchestration.Clarification.Writes.{
  answerable-ok, accept-rows, accept_checked-ok, answerable_job-ok,
}
use finance_intelligence.Orchestration.Clarification.Service.{
  answerable_job, is_late, respond, accept_checked, answerable, creator_only,
}
use finance_intelligence.Audit.{Fields}
use finance_intelligence.Orchestration.Clarification.{
  ClarificationService, ClarificationError, ClarificationTables, Platform, transact, set_job_status,
  clarification_not_required, is_waiting,
}

transact-ok :
    (db : ClarificationTables) (r : Result ClarificationError (ClarificationTables × AnalysisJob))
    (db' : ClarificationTables) (a : AnalysisJob)
    → transact db r ≡ (db', ok a)
    → r ≡ ok (db', a)
unfolding transact
transact-ok db (ok (db₁, a₁)) db' a e = cc
transact-ok db (err x) db' a e = absurd (cc e)

-- What an answer leaves: the job back in UNDERSTANDING_REQUEST, its question answered.
respond-ok :
    (p : Platform) (self : ClarificationService) (job id : ℕ) (payload : Fields)
    (attempt_id plan_id now : ℕ) (db db' : ClarificationTables) (j' : AnalysisJob)
    → respond p self job id payload attempt_id plan_id now db ≡ (db', ok j')
    → (j : AnalysisJob) × (first_where (has_id job) db.jobs ≡ some j)
      × (answerable_job p self j ≡ ok tt)
      × (db'.jobs ≡ (set_job_status job AnalysisJobStatus.understanding_request now db).jobs)
unfolding respond
respond-ok p self job id payload attempt_id plan_id now db db' j' e =
    elim (Result-cases (answerable p self job id db)) [
      | inr (x, k) ↦ absurd (cc (rw (k, respond) at e))
      | inl ((j, c), k) ↦
          let (found_j, found_c, ok_j, ok_c) = answerable-ok p self job id db j c k in
          let same_j : j.id ≡ job =
            (==_iff j.id job).0 (first_where-passes (has_id job) db.jobs j found_j) in
          elim (Bool-cases (is_late now c.expires_at)) [
            | inl t ↦ absurd (cc (rw (k, t, respond) at e))
            | inr f ↦
                let r =
                  transact-ok db (accept_checked p self j c payload attempt_id plan_id now db) db'
                    j' (rw (k, f, respond) at e) in
                let (payload', e') =
                  accept_checked-ok p self j c payload attempt_id plan_id now db (db', j') r in
                let rows = accept-rows p self j j' c payload' attempt_id plan_id now db db' e' in
                (
                  j,
                  found_j,
                  ok_j,
                  subst
                      (λ x.
                        db'.jobs
                        ≡ (set_job_status x AnalysisJobStatus.understanding_request now db).jobs)
                      same_j rows.0,
                )
          ]
    ]

not_required :
    (p : Platform) (self : ClarificationService) (job id : ℕ) (db : ClarificationTables)
    (j : AnalysisJob)
    → first_where (has_id job) db.jobs ≡ some j
    → j.user_id ≡ self.user_id
    → is_waiting j.status ≡ false
    → answerable p self job id db ≡ err clarification_not_required
unfolding answerable answerable_job creator_only
not_required p self job id db j found_j user waits =
    let same : (j.user_id == self.user_id) ≡ true = ground arith in rw (found_j, same, waits) refl

-- An answer is taken once: after a call of `respond` that succeeded, and any calls of the service by
-- any users that ask no further question of the job, a call of `respond` by the same user for this
-- job, with any question, payload and time, raises CLARIFICATION_NOT_REQUIRED and changes nothing.
pub answered_once :
    (p : Platform) (self : ClarificationService) (job id id' : ℕ) (payload payload' : Fields)
    (attempt_id attempt_id' plan_id plan_id' now later : ℕ) (db db' : ClarificationTables)
    (j' : AnalysisJob) (calls : List (ClarificationService × Call))
    → respond p self job id payload attempt_id plan_id now db ≡ (db', ok j')
    → All (λ c. asks job c.1 ≡ false) calls
    → let after = run_by p calls db' in
      respond p self job id' payload' attempt_id' plan_id' later after
      ≡ (after, err clarification_not_required)
unfolding respond
answered_once p self job id id' payload payload' attempt_id attempt_id' plan_id plan_id' now later
      db db' j' calls e others =
    let (j, found_j, ok_j, jobs) =
      respond-ok p self job id payload attempt_id plan_id now db db' j' e in
    let (user, waits) = answerable_job-ok p self j ok_j in
    let (k, found_k, user_k, waits_k) =
      run_by-Answered self.user_id job p calls db' others
        (answers self.user_id job now j db db' found_j user jobs) in
    rw (not_required p self job id' (run_by p calls db') k found_k user_k waits_k, respond) refl

-- The rows of the answered job are neither waiting for a first worker nor stale.
not_fresh :
    (job now : ℕ) (jobs : List AnalysisJob)
    → All
        (λ z. (has_id job z && is_fresh z) ≡ false)
        (update_where
          (has_id job)
          (λ k. record k { status = AnalysisJobStatus.understanding_request; updated_at = now })
          jobs)
unfolding is_fresh is_received
not_fresh job now [] = tt
not_fresh job now (j ∷ jobs) = (ground arith, not_fresh job now jobs)

not_stale :
    (job now later : ℕ) (jobs : List AnalysisJob)
    → All (λ z. (has_id job z && not (is_null z.lease_expires_at)) ≡ false) jobs
    → All
        (λ z. (has_id job z && is_stale later z) ≡ false)
        (update_where
          (has_id job)
          (λ k. record k { status = AnalysisJobStatus.understanding_request; updated_at = now })
          jobs)
unfolding is_stale is_recoverable_status
not_stale job now later [] h = tt
not_stale job now later (j ∷ jobs) h = (
  elim (Option-cases j.lease_expires_at) [
    | inl n ↦ ground (arith, h.0)
    | inr (t, n) ↦ ground (arith, h.0)
  ],
  not_stale job now later jobs h.1,
)

-- The answered job is not handed out again: with its lease cleared, as the engine has left it, no
-- later call of `claim_next_analysis_job` and no later call of `recover_next_stale_analysis_job`
-- on the jobs that `respond` has written returns it, at any time, for any worker.
pub answered_is_stranded :
    (p : Platform) (self : ClarificationService) (job id : ℕ) (payload : Fields)
    (attempt_id plan_id now : ℕ) (db db' : ClarificationTables) (j' : AnalysisJob)
    (attempts : List AnalysisAttempt) (worker : String) (token later : ℕ) (after : ClaimTables)
    (c : ClaimedAnalysisJob)
    → respond p self job id payload attempt_id plan_id now db ≡ (db', ok j')
    → All (λ z. (has_id job z && not (is_null z.lease_expires_at)) ≡ false) db.jobs
    → let tables : ClaimTables = record { jobs = db'.jobs; attempts = attempts } in
      (claim_next_analysis_job worker token later tables ≡ (after, ok (some c)) → c.job_id ≢ job)
      × (recover_next_stale_analysis_job worker token later tables ≡ (after, ok (some c))
          → c.job_id ≢ job)
unfolding set_job_status
answered_is_stranded p self job id payload attempt_id plan_id now db db' j' attempts worker token
      later after c e leases =
    let (j, found_j, ok_j, jobs) =
      respond-ok p self job id payload attempt_id plan_id now db db' j' e in
    let tables : ClaimTables = record { jobs = db'.jobs; attempts = attempts } in
    (
      λ k q.
          let (i, picked, same, _, _) = claim_inv worker token later tables after c k in
          let other =
            not_picked (has_id job) is_fresh is_older db'.jobs i
              (rw jobs (not_fresh job now db.jobs)) picked in
          ground arith,
      λ k q.
          let (i, picked, same, _, _) = recover_inv worker token later tables after c k in
          let other =
            not_picked (has_id job) (is_stale later) lapsed_before db'.jobs i
              (rw jobs (not_stale job now later db.jobs leases)) picked in
          ground arith,
    )
