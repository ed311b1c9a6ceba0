-- ===== src/Orchestration/Clarification/Service.antt =====
-- The calls by which a question is asked, answered and withdrawn: `require_clarification`,
-- `get_open_clarification`, `respond` and `cancel` of services/api/app/services/
-- clarification_service.py. The identifiers of new rows are arguments.
use finance_intelligence.Orchestration.Clarification.Response.{accepted_payload}
use finance_intelligence.Orchestration.StateMachine.{AnalysisJobStatus}
use finance_intelligence.Prelude.{
  Bool, List, Option, Result, String, [], false, ltb, none, not, ok, raise_if, select, some, ℕ,
  ◌&&◌, ◌++◌, ◌+◌, ◌==◌, ◌>>=◌, ◌>>◌, ◌∷◌, err, if◌then◌else◌,
}
use finance_intelligence.Prelude.Ascii.{codes}
use finance_intelligence.Orchestration.Store.{
  AnalysisJob, has_id, first_where, AnalysisAttempt, in_progress, update_where,
}
use finance_intelligence.Audit.{end, Fields, field, text, dict, Value}
use finance_intelligence.Orchestration.Clarification.{
  clarification_response_expired, check_transition, emit, ClarificationTables, found, is_awaiting,
  ClarificationError, AnalysisClarification, awaiting_clarification, clarification_already_answered,
  clarification_not_required, clarification_received, ClarificationService, Platform,
  set_job_status, transact, is_answered, clarification_not_found, forbidden_mutation, audit,
  is_waiting, analysis_not_found, set_clarification, ClarificationStatus, AnalysisPlanModel,
}

abbrev pub text_field : String → List ℕ → Fields → Fields
text_field key s fs = field (codes key) (text s) fs

abbrev contract_version : Fields
contract_version = text_field "contractVersion" (codes "3.0.0") end

-- `scalar_one_or_none()`, which raises where there is more than one row: `none` outside.
unfoldable pub scalar_one_or_none {ℓ} : {A : Type ℓ} → List A → Option (Option A)
scalar_one_or_none [] = some none
scalar_one_or_none (x ∷ []) = some (some x)
scalar_one_or_none (x ∷ y ∷ xs) = none

unfoldable pub get_open_clarification :
    ℕ → ClarificationTables → Option (Option AnalysisClarification)
unfolding scalar_one_or_none is_awaiting
get_open_clarification job db =
    scalar_one_or_none
      (select (λ c. c.analysis_job_id == job && is_awaiting c.status) db.clarifications)

abbrev pub is_clarification_of : ℕ → ℕ → AnalysisClarification → Bool
is_clarification_of id job c = c.id == id && c.analysis_job_id == job

-- `clar.expires_at and now > clar.expires_at`.
abbrev pub is_late : ℕ → Option ℕ → Bool
is_late now none = false
is_late now (some t) = ltb t now

unfoldable pub withdrawn : ℕ → AnalysisClarification → AnalysisClarification
withdrawn now c = record c {
  status = ClarificationStatus.clarification_cancelled;
  cancelled_at = some now;
}

unfoldable pub lapsed : AnalysisClarification → AnalysisClarification
lapsed c = record c { status = ClarificationStatus.clarification_expired }

module _ (p : Platform) (self : ClarificationService) where
  -- The row that `require_clarification` adds; `ttl` is in seconds.
  unfoldable pub new_clarification :
      ℕ → ℕ → List ℕ → List ℕ → List ℕ → Fields → ℕ → ℕ → ℕ → AnalysisClarification
  new_clarification id job code prompt_key question schema attempt_number ttl now = record {
    id = id;
    analysis_job_id = job;
    organization_id = self.organization_id;
    clarification_code = code;
    prompt_key = prompt_key;
    question = question;
    allowed_response_schema = schema;
    status = awaiting_clarification;
    requested_at = now;
    expires_at = some (now + ttl);
    answered_at = none;
    cancelled_at = none;
    response_payload = none;
    response_fingerprint = none;
    attempt_number = attempt_number;
    created_at = now;
  }

  -- What is written once the transition is found to be allowed.
  unfoldable pub ask :
      AnalysisClarification
      → ℕ
      → ClarificationTables
      → Result ClarificationError (ClarificationTables × AnalysisClarification)
  unfolding emit audit set_job_status
  ask c now db =
      let job = c.analysis_job_id in
      let db' = set_job_status job AnalysisJobStatus.needs_clarification now db in
      let payload = text_field "analysisId" (p.text_of_uuid job) (
        text_field "clarificationId" (p.text_of_uuid c.id) (
          text_field "clarificationCode" c.clarification_code
            (text_field "promptKey" c.prompt_key contract_version))) in
      emit p self.organization_id job "analysis.clarification_required" payload
        (record db' { clarifications = db'.clarifications ++ c ∷ [] })
      >>= λ db''. ok (
        audit p self.organization_id self.user_id "CLARIFICATION_REQUIRED" job
            (text_field "clarification_code" c.clarification_code end) db'',
        c,
      )

  -- Up to the commit.
  unfoldable pub ask_checked :
      AnalysisClarification
      → ℕ
      → ClarificationTables
      → Result ClarificationError (ClarificationTables × AnalysisClarification)
  unfolding ask check_transition
  ask_checked c now db =
      found analysis_not_found (first_where (has_id c.analysis_job_id) db.jobs) >>= λ j.
      check_transition j.status AnalysisJobStatus.needs_clarification >> ask c now db

  unfoldable pub require_clarification :
      ℕ
      → ℕ
      → List ℕ
      → List ℕ
      → List ℕ
      → Fields
      → ℕ
      → ℕ
      → ℕ
      → ClarificationTables
      → ClarificationTables × Result ClarificationError AnalysisClarification
  unfolding ask_checked new_clarification transact
  require_clarification id job code prompt_key question schema attempt_number ttl now db =
      transact db (
        ask_checked
          (new_clarification id job code prompt_key question schema attempt_number ttl now) now db)

  -- `if job.user_id != self.user_id: raise`.
  unfoldable pub creator_only : AnalysisJob → Result ClarificationError (Unit {0})
  creator_only j = raise_if (not (j.user_id == self.user_id)) forbidden_mutation

  -- The checks of `respond` on the job and on the clarification, in their order.
  unfoldable pub answerable_job : AnalysisJob → Result ClarificationError (Unit {0})
  unfolding creator_only is_waiting
  answerable_job j =
      creator_only j >> raise_if (not (is_waiting j.status)) clarification_not_required

  unfoldable pub answerable_clarification :
      AnalysisClarification → Result ClarificationError (Unit {0})
  unfolding is_answered is_awaiting
  answerable_clarification c =
      raise_if (is_answered c.status) clarification_already_answered
      >> raise_if (not (is_awaiting c.status)) clarification_response_expired

  -- The rows that `respond` locks, checked.
  unfoldable pub answerable :
      ℕ → ℕ → ClarificationTables → Result ClarificationError (AnalysisJob × AnalysisClarification)
  unfolding answerable_job answerable_clarification
  answerable job id db = found analysis_not_found (first_where (has_id job) db.jobs) >>= λ j.
      answerable_job j
      >> (found clarification_not_found (first_where (is_clarification_of id job) db.clarifications)
          >>= λ c. answerable_clarification c >> ok (j, c))

  unfoldable pub answered : Fields → ℕ → AnalysisClarification → AnalysisClarification
  answered payload now c = record c {
    status = clarification_received;
    answered_at = some now;
    response_payload = some payload;
    response_fingerprint = some (p.sha256 (p.text_of_uuid c.id ++ b':' ∷ p.dumps_sorted payload));
  }

  -- The events and the audit rows of an answer.
  unfoldable pub publish :
      AnalysisClarification
      → ℕ
      → ℕ
      → ClarificationTables
      → Result ClarificationError ClarificationTables
  unfolding emit audit
  publish c job number db =
      let received_payload =
        text_field "analysisId" (p.text_of_uuid job)
          (text_field "clarificationId" (p.text_of_uuid c.id) contract_version) in
      let resumed_payload =
        text_field "analysisId" (p.text_of_uuid job)
          (field (codes "attemptNumber") (Value.number number) contract_version) in
      emit p self.organization_id job "analysis.clarification_received" received_payload db
      >>= λ db₁. emit p self.organization_id job "analysis.resumed" resumed_payload db₁ >>= λ db₂.
          ok (
            audit p self.organization_id self.user_id "ANALYSIS_RESUMED_AFTER_CLARIFICATION" job
              (field (codes "attempt_number") (Value.number number) end)
              (audit p self.organization_id self.user_id "CLARIFICATION_RESPONDED" job
                (text_field "clarification_code" c.clarification_code end) db₂))

  -- What `respond` writes once the answer is accepted.
  unfoldable pub accept :
      AnalysisJob
      → AnalysisClarification
      → Fields
      → ℕ
      → ℕ
      → ℕ
      → ClarificationTables
      → Result ClarificationError (ClarificationTables × AnalysisJob)
  unfolding answered publish set_job_status set_clarification check_transition
  accept j c payload attempt_id plan_id now db =
      let job = j.id in
      let number = c.attempt_number + 1 in
      let attempt : AnalysisAttempt = record {
        id = attempt_id;
        analysis_job_id = job;
        organization_id = self.organization_id;
        attempt_number = number;
        status = in_progress;
      } in
      let plan : AnalysisPlanModel = record {
        id = plan_id;
        analysis_job_id = job;
        organization_id = self.organization_id;
        plan_version = number;
        plan_json =
            field (codes "clarification_response") (dict payload)
              (text_field "code" c.clarification_code end);
        created_at = now;
      } in
      let db₁ = set_clarification c.id (answered payload now) db in
      check_transition AnalysisJobStatus.needs_clarification AnalysisJobStatus.understanding_request
      >> publish c job number (
          set_job_status job AnalysisJobStatus.understanding_request now (record db₁ {
            attempts = db₁.attempts ++ attempt ∷ [];
            plans = db₁.plans ++ plan ∷ [];
          }))
      >>= λ db₂.
          ok (db₂, record j { status = AnalysisJobStatus.understanding_request; updated_at = now })

  -- The window has passed: this is committed, and the call raises all the same.
  unfoldable pub lapse :
      AnalysisJob → AnalysisClarification → ClarificationTables → ClarificationTables
  unfolding lapsed set_clarification
  lapse j c db =
      let db' = set_clarification c.id lapsed db in
      record db' {
        jobs =
            update_where (has_id j.id) (λ k. record k { status = AnalysisJobStatus.expired })
              db'.jobs;
      }

  unfoldable pub accept_checked :
      AnalysisJob
      → AnalysisClarification
      → Fields
      → ℕ
      → ℕ
      → ℕ
      → ClarificationTables
      → Result ClarificationError (ClarificationTables × AnalysisJob)
  unfolding accepted_payload accept
  accept_checked j c response_payload attempt_id plan_id now db =
      accepted_payload p db c.clarification_code response_payload >>= λ payload.
      accept j c payload attempt_id plan_id now db

  unfoldable pub respond :
      ℕ
      → ℕ
      → Fields
      → ℕ
      → ℕ
      → ℕ
      → ClarificationTables
      → ClarificationTables × Result ClarificationError AnalysisJob
  unfolding answerable accept_checked lapse transact
  respond job id response_payload attempt_id plan_id now db = elim (answerable job id db) [
    | err e ↦ (db, err e)
    | ok (j, c) ↦
        if is_late now c.expires_at
        then (lapse j c db, err clarification_response_expired)
        else transact db (accept_checked j c response_payload attempt_id plan_id now db)
  ]

  -- The status of the clarification is not looked at.
  unfoldable pub withdraw :
      AnalysisJob
      → AnalysisClarification
      → List ℕ
      → ℕ
      → ClarificationTables
      → Result ClarificationError (ClarificationTables × AnalysisJob)
  unfolding withdrawn audit set_job_status set_clarification check_transition
  withdraw j c reason_code now db =
      check_transition j.status AnalysisJobStatus.cancelled
      >> ok (
        audit p self.organization_id self.user_id "CLARIFICATION_CANCELLED" j.id
            (text_field "reason_code" reason_code end)
            (set_job_status j.id AnalysisJobStatus.cancelled now
              (set_clarification c.id (withdrawn now) db)),
        record j { status = AnalysisJobStatus.cancelled; updated_at = now },
      )

  unfoldable pub withdraw_checked :
      ℕ
      → ℕ
      → List ℕ
      → ℕ
      → ClarificationTables
      → Result ClarificationError (ClarificationTables × AnalysisJob)
  unfolding creator_only withdraw
  withdraw_checked job id reason_code now db =
      found analysis_not_found (first_where (has_id job) db.jobs) >>= λ j.
      creator_only j
      >> (found clarification_not_found (first_where (is_clarification_of id job) db.clarifications)
          >>= λ c. withdraw j c reason_code now db)

  unfoldable pub cancel :
      ℕ
      → ℕ
      → List ℕ
      → ℕ
      → ClarificationTables
      → ClarificationTables × Result ClarificationError AnalysisJob
  unfolding withdraw_checked transact
  cancel job id reason_code now db = transact db (withdraw_checked job id reason_code now db)
