-- ===== src/Orchestration/Engine/Asking.antt =====
-- A run that asks the user a question: what it leaves of the row of its job.
use finance_intelligence.Orchestration.Engine.Run.{clarify, ask_user, release}
use finance_intelligence.Orchestration.Engine.Plan.{
  or_fields, Collaborators, Execution, NormalizationOutcome, or_text,
}
use finance_intelligence.Orchestration.Engine.Rows.{Sees, Sees-update}
use finance_intelligence.Prelude.{
  List, Result, bind-ok, err, ok, ok-injective, refl, then-ok, ℕ, ◌>>◌, ◌≡◌, Result-cases, inl, inr,
  none, ◌*◌,
}
use finance_intelligence.Orchestration.Engine.Ends.{Ends-bind, Ends, returned, raised}
use finance_intelligence.Orchestration.Store.{is_active, has_id, first_where}
use finance_intelligence.Audit.{Fields}
use finance_intelligence.Orchestration.Engine.Phases.{Settles, is_asking}
use finance_intelligence.Orchestration.Clarification.Service.{
  require_clarification, ask, ask_checked, new_clarification,
}
use finance_intelligence.Orchestration.Clarification.Writes.{ask-rows}
use finance_intelligence.Orchestration.Engine.{commit, Session, write_attempt, is_lost, write_job}
use finance_intelligence.Orchestration.StateMachine.{AnalysisJobStatus}
use finance_intelligence.Orchestration.Clarification.{
  ClarificationError, set_job_status, AnalysisClarification, found, ClarificationTables,
  ClarificationService, check_transition, Platform, analysis_not_found, transact,
}
use finance_intelligence.Orchestration.Engine.Steps.{Kept-assert, Holds, Inside, Fault}

transact-ok :
    {A : Type 0} (db : ClarificationTables)
    (r : Result ClarificationError (ClarificationTables × A)) (a : A)
    → (transact db r).1 ≡ ok a
    → r ≡ ok ((transact db r).0, a)
unfolding transact
transact-ok db (ok (db', b)) a e = let q : b ≡ a = ok-injective e in rw q refl
transact-ok db (err x) a e = cc

-- The rows of jobs after the service has asked.
require_clarification-jobs :
    (p : Platform) (self : ClarificationService) (id job : ℕ) (code prompt_key question : List ℕ)
    (schema : Fields) (attempt_number ttl now : ℕ) (db : ClarificationTables)
    (q : AnalysisClarification)
    → (require_clarification p self id job code prompt_key question schema attempt_number ttl now
        db).1
      ≡ ok q
    → (require_clarification p self id job code prompt_key question schema attempt_number ttl now
        db).0.jobs
      ≡ (set_job_status job AnalysisJobStatus.needs_clarification now db).jobs
unfolding require_clarification
require_clarification-jobs p self id job code prompt_key question schema attempt_number ttl now db q
      e =
    let c =
      new_clarification p self id job code prompt_key question schema attempt_number ttl now in
    let k = transact-ok db (ask_checked p self c now db) q e in
    let (j, k₁, e₁) =
      bind-ok (found analysis_not_found (first_where (has_id job) db.jobs))
        (λ j.
          check_transition j.status AnalysisJobStatus.needs_clarification >> ask p self c now db)
        _ k in
    let (u, k₂, e₂) = then-ok _ (ask p self c now db) _ e₁ in (ask-rows p self c q now db _ e₂).0

module _ (c : Collaborators) (x : Execution) where
  -- Asking leaves the question's job waiting, and raises with nothing written.
  ask_user-Ends :
      {s : Session} (user attempt_number : ℕ) (o : NormalizationOutcome)
      → Inside x
          (Holds x AnalysisJobStatus.understanding_request)
          AnalysisJobStatus.understanding_request
          s
      → Ends
          (λ _ s'. Sees x.job_id (λ j. j.status ≡ AnalysisJobStatus.needs_clarification) s'.current)
          (Fault x)
          (ask_user c x user attempt_number o s)
  unfolding ask_user is_lost set_job_status
  ask_user-Ends {s} user attempt_number o v =
      let self : ClarificationService = record {
        organization_id = x.organization_id;
        user_id = user;
      } in
      let code = or_text o.clarification_code "UNSUPPORTED_REQUEST_SCOPE" in
      let key = or_text o.clarification_prompt_key "NORMALIZATION_CLARIFICATION" in
      let question = or_text o.clarification_question "Lütfen analiz parametrelerini seçiniz." in
      let schema = or_fields o.allowed_response_schema in
      let db = s.current.rows in
      let r =
        require_clarification c.platform self x.clarification_id x.job_id code key question schema
          attempt_number (15 * 60) x.now db in
      elim (Result-cases (r.1)) [
        | inl (q, p) ↦
            let jobs =
              require_clarification-jobs c.platform self x.clarification_id x.job_id code key
                question schema attempt_number (15 * 60) x.now db q p in
            rw (p, ask_user)
              (returned (
                Sees-update (has_id x.job_id)
                  (λ j. record j {
                    status = AnalysisJobStatus.needs_clarification;
                    updated_at = x.now;
                  })
                  v.sees jobs (λ j. refl) (λ j h at. (at, refl))))
        | inr (e, p) ↦ rw (p, ask_user) (raised (v.saved, refl))
      ]

  pub clarify-Settles :
      {s : Session} (user attempt_number : ℕ) (o : NormalizationOutcome)
      → Inside x
          (Holds x AnalysisJobStatus.understanding_request)
          AnalysisJobStatus.understanding_request
          s
      → Settles c x (clarify c x user attempt_number o s)
  unfolding clarify is_active commit write_attempt release write_job
  clarify-Settles user attempt_number o v = Ends-bind (Kept-assert x c refl v) λ _ _ v₁.
      Ends-bind (ask_user-Ends user attempt_number o v₁) λ _ _ seen. returned (
        Sees-update (has_id x.job_id) (λ j. record j { lease_expires_at = none }) seen refl
            (λ j. refl) (λ j h at. (at, (h, refl))),
        is_asking,
      )
