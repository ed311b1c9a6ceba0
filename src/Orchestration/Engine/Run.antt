-- ===== src/Orchestration/Engine/Run.antt =====
-- `execute_job` of services/api/app/orchestration/engine.py up to the run of the tools, phase by
-- phase. A phase that ends the run returns the status of the object that `execute_job` returns.
use finance_intelligence.Prelude.{
  ℕ, String, true, Option, none, some, List, [], ◌∷◌, ◌++◌, ok, err, ◌||◌, map, take, is_empty,
  if◌then◌else◌, ◌*◌,
}
use finance_intelligence.Prelude.Ascii.{codes}
use finance_intelligence.Audit.{Fields, end, field, number, items}
use finance_intelligence.Orchestration.StateMachine.{AnalysisJobStatus}
use finance_intelligence.Orchestration.EventEngine.{emit_event}
use finance_intelligence.Orchestration.PolicyEngine.{PolicyDecision, evaluate_model_transmission}
use finance_intelligence.Orchestration.Store.{AttemptStatus}
use finance_intelligence.Orchestration.Clarification.Service.{text_field, require_clarification}
use finance_intelligence.Orchestration.Engine.{
  EngineTables, clarification, event, Session, Action, ◌>>=◌, ◌>>◌, pure, gets, modify, modify_rows,
  commit, write_job, write_attempt, assert_fenced_ownership, check_move, set_status, check_breaker,
}
use finance_intelligence.Orchestration.Engine.Plan.{
  NormalizationOutcome, PlanStep, Collaborators, Execution, or_text, or_default, or_fields,
  measures_of, texts, measure_items, plan_json,
}

module _ (c : Collaborators) (x : Execution) where
  unfoldable pub assert_owner : Action (Unit {0})
  assert_owner = assert_fenced_ownership x.job_id x.claim_token x.worker_id

  -- `self.event_engine.emit_event(job_id, …, attempt)`.
  unfoldable pub emit_for : Option ℕ → String → Fields → Action (Unit {0})
  emit_for attempt event_type payload s =
      let (events, r) =
        emit_event x.organization_id x.job_id attempt event_type (c.platform.dumps payload)
          s.current.rows.events in
      let t = s.current in
      let s' : Session = record s {
        current = record t { rows = record (t.rows) { events = events } };
      } in
      elim r [ ok e ↦ (s', ok tt) | err e ↦ (s', err (event e)) ]

  unfoldable pub emit_of_attempt : String → Fields → Action (Unit {0})
  emit_of_attempt = emit_for (some x.attempt_id)

  -- A status that the transition table is asked about.
  unfoldable pub move : AnalysisJobStatus → Action (Unit {0})
  move status = check_move status >> set_status x.job_id status

  unfoldable pub touch : ℕ → Action (Unit {0})
  touch now = write_job x.job_id (λ j. record j { updated_at = now })

  unfoldable pub release : Action (Unit {0})
  release = write_job x.job_id (λ j. record j { lease_expires_at = none })

  unfoldable pub add_decision : PolicyDecision → Action (Unit {0})
  add_decision decision = modify (λ t. record t {
    policy_decisions =
        t.policy_decisions
        ++ record {
          analysis_job_id = x.job_id;
          organization_id = x.organization_id;
          decision = decision;
          classification = x.request_classification;
          created_at = x.now;
        }
          ∷ [];
  })

  -- Up to the evaluation of the policy.
  unfoldable pub understand : Action (Unit {0})
  understand = do
    assert_owner
    emit_of_attempt "analysis.accepted" (
        text_field "status" (codes "RECEIVED")
          (text_field "job_id" (c.platform.text_of_uuid x.job_id) end))
    assert_owner
    move AnalysisJobStatus.understanding_request
    touch x.now
    emit_of_attempt "analysis.state_changed" (
        text_field "from_state" (codes "RECEIVED")
          (text_field "to_state" (codes "UNDERSTANDING_REQUEST") end))

  -- The job is turned down; the transition table is not asked.
  unfoldable pub reject : Action AnalysisJobStatus
  reject = do
    set_status x.job_id AnalysisJobStatus.rejected_by_policy
    release
    write_attempt x.attempt_id AttemptStatus.rejected_by_policy
    touch x.now
    emit_of_attempt "analysis.failed" (
        text_field "error_code" (codes "POLICY_DENIED")
          (text_field "message" (codes "Policy denied execution.") end))
    commit
    pure AnalysisJobStatus.rejected_by_policy

  -- `ClarificationService(…).require_clarification(…)`, which commits.
  unfoldable pub ask_user : ℕ → ℕ → NormalizationOutcome → Action (Unit {0})
  ask_user user attempt_number o s =
      let t = s.current in
      let (db, r) =
        require_clarification c.platform
          (record { organization_id = x.organization_id; user_id = user }) x.clarification_id
          x.job_id (or_text o.clarification_code "UNSUPPORTED_REQUEST_SCOPE")
          (or_text o.clarification_prompt_key "NORMALIZATION_CLARIFICATION")
          (or_text o.clarification_question "Lütfen analiz parametrelerini seçiniz.")
          (or_fields o.allowed_response_schema) attempt_number (15 * 60) x.now t.rows in
      let t' : EngineTables = record t { rows = db } in
      elim r [
        | ok q ↦ (
          record s {
            committed = t';
            current = t';
            job_status = AnalysisJobStatus.needs_clarification;
          },
          ok tt,
        )
        | err e ↦ (s, err (clarification e))
      ]

  unfoldable pub clarify : ℕ → ℕ → NormalizationOutcome → Action AnalysisJobStatus
  clarify user attempt_number o = do
    assert_owner
    ask_user user attempt_number o
    write_attempt x.attempt_id AttemptStatus.needs_clarification
    release
    commit
    pure AnalysisJobStatus.needs_clarification

  -- The identifiers that the plan names: those that were matched, or up to five of the tenant.
  unfoldable pub planned_ids : NormalizationOutcome → Session → List (List ℕ) × List (List ℕ)
  planned_ids o s =
      let rows = s.current.rows in
      if is_empty o.matched_institution_ids || is_empty o.matched_period_ids
      then (
        or_default (map c.platform.text_of_uuid (take 5 rows.institutions))
            "11111111-1111-1111-1111-111111111111",
        or_default (map c.platform.text_of_uuid (take 5 rows.reporting_periods))
            "22222222-2222-2222-2222-222222222222",
      )
      else (o.matched_institution_ids, o.matched_period_ids)

  unfoldable pub plan_step : NormalizationOutcome → Session → PlanStep
  plan_step o s =
      let (institutions, periods) = planned_ids o s in
      record {
        step_number = 1;
        tool_name = codes "compare_institutions";
        tool_arguments = field (codes "institution_ids") (items (texts institutions)) (
            field (codes "reporting_period_ids") (items (texts periods)) (
              field (codes "semantic_measures")
                (items (measure_items (measures_of o.requested_semantic_measures))) end));
      }

  unfoldable pub add_plan : PlanStep → Action (Unit {0})
  add_plan step = modify_rows (λ db. record db {
    plans =
        db.plans
        ++ record {
          id = x.plan_id;
          analysis_job_id = x.job_id;
          organization_id = x.organization_id;
          plan_version = 1;
          plan_json = plan_json (c.platform.text_of_uuid x.job_id) step;
          created_at = x.now;
        }
          ∷ [];
  })

  -- From the check of the breaker to the plan.
  unfoldable pub make_plan : NormalizationOutcome → Action PlanStep
  make_plan o = do
    check_breaker x.clock
    assert_owner
    move AnalysisJobStatus.planning
    touch x.now
    emit_of_attempt "analysis.plan_ready" (
        field (codes "step_count") (number 1)
          (field (codes "tools_planned") (items (texts (codes "compare_institutions" ∷ []))) end))
    step ← gets (plan_step o)
    add_plan step
    pure step

  unfoldable pub policy_check : Action (Unit {0})
  policy_check = do
    assert_owner
    move AnalysisJobStatus.policy_check
    touch x.now
    add_decision (evaluate_model_transmission x.request_classification true)

  unfoldable pub start_tools : Action (Unit {0})
  start_tools = do
    assert_owner
    move AnalysisJobStatus.retrieving_internal_sources
    move AnalysisJobStatus.validating_sources
    move AnalysisJobStatus.executing_tools
