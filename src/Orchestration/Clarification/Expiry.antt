-- ===== src/Orchestration/Clarification/Expiry.antt =====
-- `expire_due_clarifications` of services/api/app/services/clarification_service.py: the questions
-- that nobody has answered in time. The rows are those that no other transaction has locked.
use finance_intelligence.Prelude.{
  Bool, List, Option, Result, [], false, if◌then◌else◌, leb, length, none, ok, select, some, take,
  ℕ, ◌&&◌, ◌>>=◌, ◌>>◌, ◌∷◌,
}
use finance_intelligence.Orchestration.StateMachine.{AnalysisJobStatus, is_terminal}
use finance_intelligence.Orchestration.Clarification.Service.{text_field, lapsed}
use finance_intelligence.Prelude.Ascii.{codes}
use finance_intelligence.Audit.{end, Fields}
use finance_intelligence.Orchestration.Store.{first_where, AnalysisJob, has_id}
use finance_intelligence.Orchestration.Clarification.{
  AnalysisClarification, Platform, set_job_status, emit, check_transition, ClarificationError,
  set_clarification, audit, transact, ClarificationService, is_awaiting, ClarificationTables,
}

unfoldable pub is_due : ℕ → AnalysisClarification → Bool
unfolding is_awaiting
is_due now c = is_awaiting c.status && has_passed c.expires_at
  where
    has_passed : Option ℕ → Bool
    has_passed none = false
    has_passed (some t) = leb t now

unfoldable pub expired_payload : Platform → AnalysisClarification → Fields
expired_payload p c = text_field "analysisId" (p.text_of_uuid c.analysis_job_id) (
    text_field "clarificationId" (p.text_of_uuid c.id)
      (text_field "contractVersion" (codes "3.0.0") end))

module _ (p : Platform) (self : ClarificationService) (now : ℕ) where
  unfoldable pub notify :
      AnalysisClarification → ClarificationTables → Result ClarificationError ClarificationTables
  unfolding emit audit expired_payload
  notify c db =
      emit p c.organization_id c.analysis_job_id "analysis.clarification_expired"
        (expired_payload p c) db
      >>= λ db'. ok (
          audit p c.organization_id self.user_id "CLARIFICATION_EXPIRED" c.analysis_job_id
            (text_field "clarification_code" c.clarification_code end) db')

  -- The job of a clarification, if there is one and it is not over.
  unfoldable pub expire_job :
      AnalysisClarification
      → Option AnalysisJob
      → ClarificationTables
      → Result ClarificationError ClarificationTables
  unfolding set_job_status check_transition
  expire_job c none db = ok db
  expire_job c (some j) db =
      if is_terminal j.status
      then ok db
      else (check_transition j.status AnalysisJobStatus.expired
          >> ok (set_job_status c.analysis_job_id AnalysisJobStatus.expired now db))

  unfoldable pub expire_one :
      AnalysisClarification → ClarificationTables → Result ClarificationError ClarificationTables
  unfolding lapsed set_clarification expire_job notify
  expire_one c db =
      expire_job c (first_where (has_id c.analysis_job_id) db.jobs)
        (set_clarification c.id lapsed db)
      >>= notify c

  unfoldable pub expire_all :
      List AnalysisClarification
      → ClarificationTables
      → Result ClarificationError ClarificationTables
  unfolding expire_one
  expire_all [] db = ok db
  expire_all (c ∷ cs) db = expire_one c db >>= expire_all cs

  -- The limit of a batch is 50 unless the caller says otherwise.
  unfoldable pub expire_due_clarifications :
      ℕ → ClarificationTables → ClarificationTables × Result ClarificationError ℕ
  unfolding expire_all transact
  expire_due_clarifications batch_size db =
      let batch = take batch_size (select (is_due now) db.clarifications) in
      transact db (expire_all batch db >>= λ db'. ok (db', length batch))
