-- ===== src/Orchestration/Clarification.antt =====
-- services/api/app/services/clarification_service.py: the questions that an analysis asks its user.
-- This file has the tables that the service reads and writes, and what it takes from elsewhere. A
-- call reads the clock once. What a call has written when it raises an error is not kept, unless the
-- call has committed before: the session is closed without a commit. The columns `user_response`
-- and `created_by_system`, which nothing reads, are left out.
pub mod Response
pub mod Service
pub mod Expiry
pub mod Writes
pub mod Questions
pub mod OneOpen
pub mod Overdue
pub mod Batch
pub mod Calls
pub mod Answered
pub mod Resumption
use finance_intelligence.Prelude.{
  Bool, List, Option, Result, String, err, false, none, ok, some, true, ℕ, ◌==◌,
}
use finance_intelligence.Prelude.Ascii.{codes}
use finance_intelligence.Orchestration.Exceptions.{OrchestrationException}
use finance_intelligence.Orchestration.StateMachine.{validate_transition, AnalysisJobStatus}
use finance_intelligence.Orchestration.EventEngine.{EventError, emit_event, Database}
use finance_intelligence.Orchestration.Store.{update_where, AnalysisJob, has_id, AnalysisAttempt}
use finance_intelligence.Audit.{AuditEvent, Fields, Value, record_event}

pub data ClarificationStatus : Type 0 where
  awaiting_clarification clarification_received clarification_expired clarification_cancelled :
      ClarificationStatus

-- `class AnalysisClarification` of models/orchestration.py.
pub record AnalysisClarification : Type 0 where
  pub id : ℕ
  pub analysis_job_id : ℕ
  pub organization_id : ℕ
  pub clarification_code : List ℕ
  pub prompt_key : List ℕ
  pub question : List ℕ
  pub allowed_response_schema : Fields
  pub status : ClarificationStatus
  pub requested_at : ℕ
  pub expires_at : Option ℕ
  pub answered_at : Option ℕ
  pub cancelled_at : Option ℕ
  pub response_payload : Option Fields
  pub response_fingerprint : Option (List ℕ)
  pub attempt_number : ℕ
  pub created_at : ℕ

-- `class AnalysisPlanModel`; `plan_version` is the first number of the text.
pub record AnalysisPlanModel : Type 0 where
  pub id : ℕ
  pub analysis_job_id : ℕ
  pub organization_id : ℕ
  pub plan_version : ℕ
  pub plan_json : Fields
  pub created_at : ℕ

-- What the session sees; the last three are the identifiers of the rows that the tenant owns.
pub record ClarificationTables : Type 0 where
  pub jobs : List AnalysisJob
  pub attempts : List AnalysisAttempt
  pub clarifications : List AnalysisClarification
  pub plans : List AnalysisPlanModel
  pub events : Database
  pub audit_log : List AuditEvent
  pub institutions : List ℕ
  pub reporting_periods : List ℕ
  pub documents : List ℕ

-- The codes of the errors that the calls raise, and the errors that they pass on.
pub data ClarificationError : Type 0 where
  analysis_not_found forbidden_mutation clarification_not_required clarification_not_found
        clarification_already_answered clarification_response_expired
        clarification_response_invalid :
      ClarificationError
  refused : OrchestrationException → ClarificationError
  event_refused : EventError → ClarificationError

-- `class ClarificationCode` of schemas/clarification.py.
pub data ClarificationCode : Type 0 where
  institution_required reporting_period_required reporting_basis_required measure_required
        document_scope_required comparison_scope_ambiguous unsupported_request_scope :
      ClarificationCode

-- What the service takes from the language's libraries and from pydantic: the text of an
-- identifier, `json.dumps` without and with sorted keys, `sha256(…).hexdigest()`,
-- `UUID(str(value))`, and `model_validate` of the schema of a code with `model_dump`.
pub record Platform : Type 0 where
  pub text_of_uuid : ℕ → List ℕ
  pub dumps : Fields → List ℕ
  pub dumps_sorted : Fields → List ℕ
  pub sha256 : List ℕ → List ℕ
  pub parse_uuid : Value → Option ℕ
  pub model_validate : ClarificationCode → Fields → Option Fields

-- `class ClarificationService`: the session's tenant and user.
pub record ClarificationService : Type 0 where
  pub organization_id : ℕ
  pub user_id : ℕ

unfoldable pub is_awaiting : ClarificationStatus → Bool
is_awaiting ClarificationStatus.awaiting_clarification = true
is_awaiting _ = false

unfoldable pub is_answered : ClarificationStatus → Bool
is_answered ClarificationStatus.clarification_received = true
is_answered _ = false

-- `job.status == NEEDS_CLARIFICATION`.
unfoldable pub is_waiting : AnalysisJobStatus → Bool
is_waiting AnalysisJobStatus.needs_clarification = true
is_waiting _ = false

-- `scalar_one_or_none()`, and the error where there is no row.
abbrev pub found {ℓ} : {A : Type ℓ} → ClarificationError → Option A → Result ClarificationError A
found e none = err e
found e (some a) = ok a

-- `AnalysisStateMachine.validate_transition`, whose exception nothing catches.
unfoldable pub check_transition :
    AnalysisJobStatus → AnalysisJobStatus → Result ClarificationError (Unit {0})
check_transition s t = elim (validate_transition s t) [ ok u ↦ ok u | err e ↦ err (refused e) ]

-- `job.status = …; job.updated_at = now`.
unfoldable pub set_job_status :
    ℕ → AnalysisJobStatus → ℕ → ClarificationTables → ClarificationTables
set_job_status job status now db = record db {
  jobs = update_where (has_id job) (λ j. record j { status = status; updated_at = now }) db.jobs;
}

abbrev pub has_clarification_id : ℕ → AnalysisClarification → Bool
has_clarification_id id c = c.id == id

-- An assignment to columns of one clarification.
unfoldable pub set_clarification :
    ℕ → (AnalysisClarification → AnalysisClarification) → ClarificationTables → ClarificationTables
set_clarification id f db = record db {
  clarifications = update_where (has_clarification_id id) f db.clarifications;
}

-- `AnalysisEventEngine(db, organization).emit_event(…)` without an attempt.
unfoldable pub emit :
    Platform
    → ℕ
    → ℕ
    → String
    → Fields
    → ClarificationTables
    → Result ClarificationError ClarificationTables
emit p organization job event_type payload db =
    let (events, outcome) =
      emit_event organization job none event_type (p.dumps payload) db.events in
    elim outcome [ ok e ↦ ok (record db { events = events }) | err e ↦ err (event_refused e) ]

-- `AuditService.record_event(…)` about an analysis job.
unfoldable pub audit :
    Platform → ℕ → ℕ → String → ℕ → Fields → ClarificationTables → ClarificationTables
audit p organization user event_type job payload db = record db {
  audit_log =
      (record_event p.text_of_uuid p.sha256 organization (codes event_type) (codes "ANALYSIS_JOB")
        job (some user) (some payload) db.audit_log).0;
}

-- The end of a call: it commits, or it raises.
unfoldable pub transact {ℓ} :
    {A : Type ℓ}
    → ClarificationTables
    → Result ClarificationError (ClarificationTables × A)
    → ClarificationTables × Result ClarificationError A
transact db (ok (db', a)) = (db', ok a)
transact db (err e) = (db, err e)
