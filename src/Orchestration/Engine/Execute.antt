-- ===== src/Orchestration/Engine/Execute.antt =====
-- `execute_job` of services/api/app/orchestration/engine.py from the run of the tools to its end, and
-- the whole of it with its handlers.
use finance_intelligence.Prelude.{
  ℕ, Bool, true, false, Option, none, some, List, [], ◌∷◌, ◌++◌, Result, ok, err, ◌&&◌, any, select,
  length, if◌then◌else◌, ◌+◌, ◌==◌,
}
use finance_intelligence.Prelude.Ascii.{codes}
use finance_intelligence.Audit.{Fields, end, field, number}
use finance_intelligence.Orchestration.Exceptions.{OrchestrationException}
use finance_intelligence.Orchestration.StateMachine.{AnalysisJobStatus}
use finance_intelligence.Orchestration.Budget.{JobBudgetTracker, default_tracker, record_tool_call}
use finance_intelligence.Orchestration.PolicyEngine.{evaluate_model_transmission}
use finance_intelligence.Orchestration.Store.{
  AnalysisJob, AttemptStatus, update_where, first_where, is_held_by,
}
use finance_intelligence.Orchestration.Clarification.Service.{text_field}
use finance_intelligence.Orchestration.ToolDedup.{check_existing_invocation}
use finance_intelligence.Orchestration.Engine.{
  EngineException, orchestration, Action, Outcome, and_then, ◌>>=◌, ◌>>◌, pure, raise, gets, lift,
  modify, commit, rollback, write_job, write_attempt, get_attempt, lost, is_lost, raise_unless,
  check_move, set_status, QualityGateResultRecord,
}
use finance_intelligence.Orchestration.Engine.Plan.{
  NormalizationOutcome, PlanStep, Collaborators, Execution, is_deny, or_text, dataset_id,
  GateResult,
}
use finance_intelligence.Orchestration.Engine.Run.{
  assert_owner, emit_for, emit_of_attempt, move, touch, release, add_decision, understand, reject,
  clarify, make_plan, policy_check, start_tools,
}
use mathlib.Core.Option

-- `status NOT IN ('COMPLETED', 'REJECTED_BY_POLICY')`.
unfoldable pub can_fail : AnalysisJobStatus → Bool
can_fail AnalysisJobStatus.completed = false
can_fail AnalysisJobStatus.rejected_by_policy = false
can_fail _ = true

abbrev pub started_payload : PlanStep → Fields
started_payload step =
    text_field "tool_name" step.tool_name (field (codes "step") (number step.step_number) end)

module _ (c : Collaborators) (x : Execution) where
  -- `self.db.add(tool_inv)`.
  unfoldable pub add_invocation : PlanStep → Fields → Action (Unit {0})
  add_invocation step result = modify (λ t. record t {
    tool_invocations =
        t.tool_invocations
        ++ record {
          organization_id = x.organization_id;
          analysis_job_id = x.job_id;
          tool_name = step.tool_name;
          arguments_json = step.tool_arguments;
          result_json = result;
          created_at = x.invoked_at;
        }
          ∷ [];
  })

  -- The result of a step, and how long it took: the one of an earlier run, or that of the tool.
  unfoldable pub obtain : PlanStep → Option Fields → Action (Fields × ℕ)
  obtain step (some result) = pure (result, 0)
  obtain step none = do
    result ← c.run_tool step
    assert_owner c x
    add_invocation step result
    pure (result, c.exec_ms)

  unfoldable pub run_step : PlanStep → Action Fields
  run_step step = do
    emit_of_attempt c x "analysis.tool_started" (started_payload step)
    known ← gets (λ s.
        check_existing_invocation c.platform.dumps_sorted c.platform.sha256 x.organization_id
          x.job_id step.tool_name step.tool_arguments s.current.tool_invocations)
    answer ← obtain step known
    emit_of_attempt c x "analysis.tool_completed" (
        text_field "tool_name" step.tool_name
          (field (codes "execution_time_ms") (number answer.1) end))
    pure answer.0

  unfoldable pub charge : Result OrchestrationException (Unit {0}) → Action (Unit {0})
  charge (ok u) = pure tt
  charge (err e) = raise (orchestration e)

  -- `for step in plan.ordered_steps`, with the outputs in their order.
  unfoldable pub run_steps : JobBudgetTracker → List PlanStep → Action (List Fields)
  run_steps budget [] = pure []
  run_steps budget (step ∷ steps) =
      let (budget', r) = record_tool_call budget in
      let rest = run_steps budget' steps in
      do charge r; output ← run_step step; outputs ← rest; pure (output ∷ outputs)

  -- From the outputs to the narrative and the dataset it is about.
  unfoldable pub narrate : PlanStep → List Fields → Action (List ℕ × List ℕ)
  narrate step outputs = do
    assert_owner c x
    move c x AnalysisJobStatus.reconciling_results
    move c x AnalysisJobStatus.generating_structured_result
    content ← lift (c.invoke_model step outputs)
    dataset ← lift (dataset_id outputs)
    pure (or_text (some content) "Analiz tamamlandı.", c.text_of_value dataset)

  abbrev pub summary : List ℕ → Fields
  summary dataset = text_field "result_dataset_id" dataset end

  abbrev gate_records : List GateResult → List QualityGateResultRecord
  gate_records [] = []
  gate_records (g ∷ gs) =
      record {
        analysis_job_id = x.job_id;
        organization_id = x.organization_id;
        gate_code = g.gate_code;
        status = g.status;
        reason_code = g.reason_code;
      }
      ∷ gate_records gs

  unfoldable pub pass_gates : List ℕ → List ℕ → Action (Unit {0})
  pass_gates narrative dataset = do
    assert_owner c x
    move c x AnalysisJobStatus.quality_gate
    results ← lift (c.run_all_gates narrative (summary dataset))
    modify (λ t. record t { gate_results = t.gate_results ++ gate_records results })

  -- `UPDATE … WHERE id = … AND claim_token = … AND locked_by = … AND …`, which must find its row.
  unfoldable pub fenced_update :
      (AnalysisJob → Bool) → (AnalysisJob → AnalysisJob) → Action (Unit {0})
  fenced_update extra f s =
      let test : AnalysisJob → Bool =
        λ j. is_held_by x.job_id x.claim_token x.worker_id j && extra j in
      let t = s.current in
      let db = t.rows in
      raise_unless (any test db.jobs) lost (record s {
        current = record t { rows = record db { jobs = update_where test f db.jobs } };
      })

  unfoldable pub add_snapshot : List ℕ → List ℕ → Action (Unit {0})
  add_snapshot narrative dataset = modify (λ t. record t {
    snapshots =
        t.snapshots
        ++ record {
          analysis_job_id = x.job_id;
          organization_id = x.organization_id;
          narrative = narrative;
          result_dataset_id = dataset;
          created_at = x.now_completed;
        }
          ∷ [];
  })

  unfoldable pub mark_completed : AnalysisJob → AnalysisJob
  mark_completed j = record j {
    status = AnalysisJobStatus.completed;
    lease_expires_at = none;
    updated_at = x.now_completed;
  }

  unfoldable pub completed_payload : Fields
  completed_payload =
      text_field "snapshot_id" (c.platform.text_of_uuid x.snapshot_id)
        (text_field "completed_at" (c.text_of_time x.now_completed) end)

  unfoldable pub complete : List ℕ → List ℕ → Action AnalysisJobStatus
  complete narrative dataset = do
    assert_owner c x
    check_move AnalysisJobStatus.completed
    fenced_update (λ j. true) mark_completed
    set_status x.job_id AnalysisJobStatus.completed
    release c x
    touch c x x.now_completed
    write_attempt x.attempt_id AttemptStatus.completed
    add_snapshot narrative dataset
    emit_of_attempt c x "analysis.completed" completed_payload
    commit
    pure AnalysisJobStatus.completed

  -- From the tools to the end.
  unfoldable pub conclude : PlanStep → Action AnalysisJobStatus
  conclude step = do
    start_tools c x
    outputs ← run_steps default_tracker (step ∷ [])
    result ← narrate step outputs
    pass_gates result.0 result.1
    complete result.0 result.1

  -- The second evaluation of the policy.
  unfoldable pub decide : PlanStep → Action AnalysisJobStatus
  decide step = do
    policy_check c x
    if is_deny (evaluate_model_transmission x.request_classification true)
        then (assert_owner c x >> reject c x)
        else conclude step

  unfoldable pub proceed : NormalizationOutcome → Action AnalysisJobStatus
  proceed o = do step ← make_plan c x o; decide step

  -- After the first evaluation of the policy.
  unfoldable pub normalise_request : ℕ → ℕ → Action AnalysisJobStatus
  normalise_request user attempt_number s =
      and_then (lift (c.normalize_request s.current) s)
        λ o. if o.needs_clarification then clarify c x user attempt_number o else proceed o

  -- The body of the `try`.
  unfoldable pub run_phases : ℕ → ℕ → Action AnalysisJobStatus
  run_phases user attempt_number = do
    understand c x
    let pre_decision = evaluate_model_transmission x.request_classification true
    if is_deny pre_decision
        then (assert_owner c x >> (add_decision c x pre_decision >> reject c x))
        else normalise_request user attempt_number

  unfoldable pub may_fail : AnalysisJob → Bool
  may_fail j = can_fail j.status

  unfoldable pub mark_failed : AnalysisJob → AnalysisJob
  mark_failed j = record j {
    status = AnalysisJobStatus.failed;
    lease_expires_at = none;
    updated_at = x.now_failed;
  }

  unfoldable pub failure_payload : EngineException → Fields
  failure_payload e =
      text_field "error_code" (c.error_code e) (text_field "message" (c.error_message e) end)

  -- The failure transaction.
  unfoldable pub persist_failure : EngineException → Action (Unit {0})
  persist_failure e = do
    assert_owner c x
    fenced_update may_fail mark_failed
    write_job x.job_id mark_failed
    attempt ← get_attempt x.attempt_id
    write_attempt x.attempt_id AttemptStatus.failed
    emit_for c x (Option.map (λ a. x.attempt_id) attempt) "analysis.failed" (failure_payload e)
    commit

  -- `except ClaimOwnershipLostException` of the failure transaction.
  unfoldable pub settle : EngineException → Outcome (Unit {0}) → Outcome AnalysisJobStatus
  settle e (s, ok u) = (s, err e)
  settle e (s, err e') = if is_lost e' then and_then (rollback s) (λ u. raise e) else (s, err e')

  -- The two handlers of the `try`.
  unfoldable pub handle : Outcome AnalysisJobStatus → Outcome AnalysisJobStatus
  handle (s, ok status) = (s, ok status)
  handle (s, err e) =
      and_then (rollback s)
        λ u s'. if is_lost e then raise e s' else settle e (persist_failure e s')

  -- The row that is locked, of the tenant and held by the worker.
  unfoldable pub is_locked : AnalysisJob → Bool
  is_locked j =
      j.organization_id == x.organization_id && is_held_by x.job_id x.claim_token x.worker_id j

  unfoldable pub lock_job : Action AnalysisJob
  lock_job s = elim (first_where is_locked s.current.rows.jobs) [
    | none ↦ (s, err lost)
    | some j ↦ (record s { job_status = j.status }, ok j)
  ]

  -- The attempt is added with the next number of the job, which is returned.
  unfoldable pub add_attempt : Action ℕ
  add_attempt s =
      let t = s.current in
      let db = t.rows in
      let attempt_number = length (select (λ a. a.analysis_job_id == x.job_id) db.attempts) + 1 in
      (
        record s {
          current = record t {
            rows = record db {
              attempts =
                  db.attempts
                  ++ record {
                    id = x.attempt_id;
                    analysis_job_id = x.job_id;
                    organization_id = x.organization_id;
                    attempt_number = attempt_number;
                    status = AttemptStatus.in_progress;
                  }
                    ∷ [];
            };
          };
        },
        ok attempt_number,
      )

  unfoldable pub execute_job : Action AnalysisJobStatus
  execute_job = do
    assert_owner c x
    job ← lock_job
    attempt_number ← add_attempt
    λ s. handle (run_phases job.user_id attempt_number s)
