-- ===== src/Examples/Engine.antt =====
-- services/api/app/orchestration/engine.py: runs of one claimed job.
use finance_intelligence.Orchestration.Engine.Fenced.{stale_run_changes_nothing}
use finance_intelligence.Orchestration.Engine.Ends.{Ends, returned}
use finance_intelligence.Orchestration.Engine.Taken.{LosesJob, taken_job_is_left_alone}
use finance_intelligence.Orchestration.Engine.Steps.{Inside, Holds}
use finance_intelligence.Orchestration.Engine.Denied.{denied_reaches_nobody, with_others}
use finance_intelligence.Orchestration.Engine.Published.{IsPublished, completed-IsPublished}
use finance_intelligence.Orchestration.Engine.Settled.{IsSettled, IsClaimed, execute_job-IsSettled}
use finance_intelligence.Orchestration.Engine.Rows.{Sees}
use finance_intelligence.Orchestration.Engine.Tools.{LeavesJob}
use finance_intelligence.Prelude.{[], false, none, ok, refl, some, ◌∷◌, ◌≡◌, arith, err}
use finance_intelligence.Orchestration.EventEngine.{emit_event}
use finance_intelligence.Orchestration.Claims.{
  is_renewable, ClaimTables, recover_next_stale_analysis_job, is_unsafe_worker_id, is_stale,
}
use finance_intelligence.Orchestration.Budget.{verify_budget, record_tool_call}
use finance_intelligence.Prelude.Ascii.{codes}
use finance_intelligence.Orchestration.Clarification.Service.{text_field, require_clarification}
use finance_intelligence.Orchestration.Store.{is_active, AnalysisJob, is_held_by}
use finance_intelligence.Orchestration.PolicyEngine.{
  evaluate_model_transmission, DataClassification,
}
use finance_intelligence.Examples.Clarification.{platform}
use finance_intelligence.Audit.{get_key, field, Fields, end, dict}
use finance_intelligence.Orchestration.StateMachine.{AnalysisJobStatus, validate_transition}
use finance_intelligence.Orchestration.CircuitBreaker.{check_allow_execution, CircuitState}
use finance_intelligence.Orchestration.ToolDedup.{existing_invocation, check_existing_invocation}
use finance_intelligence.Orchestration.Engine.Run.{
  ask_user, assert_owner, emit_for, planned_ids, release, understand, make_plan, touch, start_tools,
  reject, clarify, plan_step, add_decision, add_plan, move, emit_of_attempt, policy_check,
}
use finance_intelligence.Orchestration.Engine.Plan.{
  is_truthy, NormalizationOutcome, is_deny, Collaborators, plan_json, Execution, id_in, dataset_id,
  PlanStep,
}
use finance_intelligence.Orchestration.Engine.{
  Session, EngineTables, rollback, check_move, get_attempt, check_breaker, assert_fenced_ownership,
  raise_unless, set_status, write_attempt, write_job, is_lost, commit, other, lost,
}
use finance_intelligence.Orchestration.Engine.Execute.{
  failure_payload, persist_failure, decide, conclude, execute_job, can_fail, is_locked,
  completed_payload, add_invocation, lock_job, charge, proceed, fenced_update, settle, pass_gates,
  add_snapshot, obtain, run_steps, complete, may_fail, add_attempt, handle, narrate, run_step,
  mark_completed, mark_failed, normalise_request, run_phases,
}

abbrev job : AnalysisJob
job = record {
  id = 7;
  organization_id = 1;
  user_id = 2;
  status = AnalysisJobStatus.received;
  locked_by = some "w1";
  locked_at = some 10;
  lease_expires_at = some 910;
  claim_token = some 901;
  recovery_count = 0;
  created_at = 5;
  updated_at = 10;
}

abbrev tables : EngineTables
tables = record {
  rows = record {
    jobs = job ∷ [];
    attempts = [];
    clarifications = [];
    plans = [];
    events = record { current_organization_id = some 1; events = [] };
    audit_log = [];
    institutions = 21 ∷ 22 ∷ [];
    reporting_periods = 31 ∷ [];
    documents = [];
  };
  policy_decisions = [];
  tool_invocations = [];
  gate_results = [];
  snapshots = [];
}

abbrev session : Session
session = record {
  committed = tables;
  current = tables;
  breaker = record {
    failure_threshold = 3;
    cooldown_seconds = 60;
    half_open_max_probes = 2;
    state = CircuitState.closed;
    consecutive_failures = 0;
    last_failure_time = 0;
    half_open_probes = 0;
  };
  job_status = AnalysisJobStatus.received;
}

abbrev run_of : DataClassification → Execution
run_of classification = record {
  organization_id = 1;
  job_id = 7;
  claim_token = 901;
  worker_id = "w1";
  request_classification = classification;
  attempt_id = 51;
  clarification_id = 52;
  plan_id = 53;
  snapshot_id = 54;
  now = 20;
  clock = 20;
  invoked_at = 21;
  now_completed = 22;
  now_failed = 23;
}

abbrev outcome : NormalizationOutcome
outcome = record {
  needs_clarification = false;
  requested_semantic_measures = none;
  matched_institution_ids = [];
  matched_period_ids = [];
  clarification_code = none;
  clarification_prompt_key = none;
  clarification_question = none;
  allowed_response_schema = none;
}

abbrev output : Fields
output = field (codes "result_dataset") (dict (text_field "result_dataset_id" (codes "ds") end)) end

abbrev collaborators : Collaborators
collaborators = record {
  platform = platform;
  text_of_time = λ n. n ∷ [];
  text_of_value = λ v. codes "ds";
  normalize_request = λ t. ok outcome;
  run_tool = λ step s. (s, ok output);
  exec_ms = 4;
  invoke_model = λ step outputs. ok (codes "Toplam");
  run_all_gates = λ narrative summary. ok [];
  error_code = λ e. codes "ENGINE_EXECUTION_FAILED";
  error_message = λ e. codes "Analysis job execution failed.";
}

abbrev public_run : Execution
public_run = run_of DataClassification.public

completes : (execute_job collaborators public_run session).1 ≡ ok AnalysisJobStatus.completed
unfolding add_attempt add_decision add_invocation add_plan add_snapshot ask_user
    assert_fenced_ownership assert_owner can_fail charge check_allow_execution check_breaker
    check_existing_invocation check_move clarify commit complete mark_completed completed_payload
    conclude dataset_id decide emit_of_attempt emit_event emit_for evaluate_model_transmission
    execute_job existing_invocation mark_failed failure_payload fenced_update get_attempt get_key
    handle id_in is_active is_deny is_held_by is_locked is_lost is_renewable is_truthy lock_job
    make_plan may_fail move narrate normalise_request obtain pass_gates persist_failure plan_json
    plan_step planned_ids policy_check proceed raise_unless record_tool_call reject release
    require_clarification rollback run_phases run_step run_steps set_status settle start_tools touch
    understand validate_transition verify_budget write_attempt write_job
completes = refl

leaves : LeavesJob collaborators public_run
leaves = record {
  normaliser = λ t e q. cc;
  tool = λ step s v. returned v;
  provider = λ step outputs e q. cc;
  gates = λ narrative summary e q. cc;
}

seen : Sees 7 (IsClaimed collaborators public_run) tables
unfolding is_held_by
seen = record { row = job; only = refl; holds = ((refl, refl), refl) }

execute_job-IsSettled_example :
    IsSettled collaborators public_run (execute_job collaborators public_run session)
unfolding is_held_by
execute_job-IsSettled_example =
    execute_job-IsSettled collaborators public_run session leaves (λ e. refl) refl seen

completed-IsPublished_example :
    IsPublished collaborators public_run (execute_job collaborators public_run session).0
unfolding add_attempt add_decision add_invocation add_plan add_snapshot ask_user
    assert_fenced_ownership assert_owner can_fail charge check_allow_execution check_breaker
    check_existing_invocation check_move clarify commit complete mark_completed completed_payload
    conclude dataset_id decide emit_of_attempt emit_event emit_for evaluate_model_transmission
    execute_job existing_invocation mark_failed failure_payload fenced_update get_attempt get_key
    handle id_in is_active is_deny is_held_by is_locked is_lost is_renewable is_truthy lock_job
    make_plan may_fail move narrate normalise_request obtain pass_gates persist_failure plan_json
    plan_step planned_ids policy_check proceed raise_unless record_tool_call reject release
    require_clarification rollback run_phases run_step run_steps set_status settle start_tools touch
    understand validate_transition verify_budget write_attempt write_job
completed-IsPublished_example =
    completed-IsPublished collaborators public_run session
      (execute_job collaborators public_run session).0 refl

abbrev confidential_run : Execution
confidential_run = run_of DataClassification.confidential

abbrev failing : Collaborators
failing =
    with_others (λ t. err (other 1)) (λ step s. (s, err (other 2))) (λ step outputs. err (other 3))
      (λ narrative summary. err (other 4)) collaborators

denied_reaches_nobody_example :
    execute_job failing confidential_run session
    ≡ execute_job collaborators confidential_run session
unfolding is_deny evaluate_model_transmission
denied_reaches_nobody_example =
    denied_reaches_nobody (λ t. err (other 1)) (λ step s. (s, err (other 2)))
      (λ step outputs. err (other 3)) (λ narrative summary. err (other 4)) collaborators
      confidential_run session refl

-- Another worker has the job under another token.
abbrev taken_tables : EngineTables
taken_tables = record tables {
  rows = record (tables.rows) {
    jobs = record job { locked_by = some "w2"; claim_token = some 902 } ∷ [];
  };
}

abbrev losing : Collaborators
losing = record collaborators {
  run_tool = λ step s. (record s { committed = taken_tables; current = taken_tables }, ok output);
}

abbrev checked_session : Session
checked_session = record session {
  current = record tables {
    rows = record (tables.rows) {
      jobs = record job { status = AnalysisJobStatus.policy_check } ∷ [];
    };
  };
  job_status = AnalysisJobStatus.policy_check;
}

abbrev step : PlanStep
step = record { step_number = 1; tool_name = codes "compare_institutions"; tool_arguments = end }

inside :
    Inside public_run
      (Holds public_run AnalysisJobStatus.policy_check)
      AnalysisJobStatus.policy_check
      checked_session
unfolding is_held_by is_renewable is_active
inside = record {
  saved = record { row = job; only = refl; holds = refl };
  sees = record {
    row = record job { status = AnalysisJobStatus.policy_check };
    only = refl;
    holds = (refl, refl);
  };
  object = refl;
}

loses : LosesJob losing public_run taken_tables
unfolding is_held_by
loses = record { taken = refl; committed = λ step s. refl; current = λ step s. refl }

taken_job_is_left_alone_example :
    Ends
      (λ _ _. ⊥)
      (λ e s. s.committed ≡ taken_tables)
      (handle losing public_run (conclude losing public_run step checked_session))
unfolding check_existing_invocation
taken_job_is_left_alone_example =
    taken_job_is_left_alone losing public_run taken_tables loses step inside refl refl

abbrev lapsed_tables : ClaimTables
lapsed_tables = record { jobs = record job { lease_expires_at = some 15 } ∷ []; attempts = [] }

abbrev recovered_tables : ClaimTables
recovered_tables = record {
  jobs =
      record job {
        locked_by = some "w2";
        locked_at = some 100;
        lease_expires_at = some 1000;
        claim_token = some 902;
        recovery_count = 1;
        updated_at = 100;
      }
      ∷ [];
  attempts = [];
}

abbrev late_session : Session
late_session = record session {
  current = record tables { rows = record (tables.rows) { jobs = recovered_tables.jobs } };
}

stale_run_changes_nothing_example :
    execute_job collaborators public_run late_session ≡ (late_session, err lost)
unfolding recover_next_stale_analysis_job is_unsafe_worker_id is_stale
stale_run_changes_nothing_example =
    stale_run_changes_nothing collaborators public_run "w2" 902 100 lapsed_tables recovered_tables
      (record { job_id = 7; organization_id = 1; claim_token = 902 }) late_session refl refl
      (omega arith) refl
