-- ===== src/Examples/Clarification.antt =====
-- services/api/app/services/clarification_service.py: one question, asked of a claimed job, and its
-- answer.
use finance_intelligence.Prelude.{
  [], arith, err, length, min, none, ok, refl, select, some, take, true, ◌∷◌, ◌≡◌, ◌≢◌, List,
}
use finance_intelligence.Orchestration.Store.{first_where, has_id, AnalysisJob}
use finance_intelligence.Orchestration.Clarification.Expiry.{is_due, expire_due_clarifications}
use finance_intelligence.Orchestration.Store.Rows.{All}
use finance_intelligence.Prelude.Ascii.{codes}
use finance_intelligence.Orchestration.Clarification.Calls.{
  Call, require_call, cancel_call, run, get_open_clarification_total,
}
use finance_intelligence.Orchestration.Clarification.Batch.{
  is_over, expire_due_clarifications_total,
}
use finance_intelligence.Orchestration.StateMachine.{
  AnalysisJobStatus, validate_transition, is_allowed,
}
use finance_intelligence.Orchestration.Claims.{
  ClaimedAnalysisJob, claim_next_analysis_job, ClaimTables, recover_next_stale_analysis_job,
}
use finance_intelligence.Orchestration.Clarification.{
  emit, ClarificationService, clarification_not_required, is_awaiting, Platform,
  ClarificationTables,
}
use finance_intelligence.Orchestration.Clarification.Service.{
  ask_checked, accept_checked, accept, get_open_clarification, respond, ask, answerable,
  require_clarification,
}
use finance_intelligence.Audit.{get_key, field, end, Value, Fields}
use finance_intelligence.Orchestration.Clarification.Response.{accepted_payload}
use finance_intelligence.Orchestration.Clarification.Questions.{OneOpen}
use finance_intelligence.Orchestration.Clarification.Answered.{asks, run_by}
use finance_intelligence.Orchestration.Clarification.Calls.{Call, respond_call, expire_call}
use finance_intelligence.Orchestration.Clarification.Resumption.{
  answered_once, answered_is_stranded,
}
use finance_intelligence.Orchestration.EventEngine.{emit_event}

abbrev pub platform : Platform
platform = record {
  text_of_uuid = λ n. n ∷ [];
  dumps = λ fs. [];
  dumps_sorted = λ fs. [];
  sha256 = λ s. s;
  parse_uuid = λ v. some 3;
  model_validate = λ c fs. some fs;
}

abbrev service : ClarificationService
service = record { organization_id = 1; user_id = 2 }

abbrev asking : AnalysisJob
asking = record {
  id = 7;
  organization_id = 1;
  user_id = 2;
  status = AnalysisJobStatus.understanding_request;
  locked_by = some "w1";
  locked_at = some 10;
  lease_expires_at = none;
  claim_token = some 901;
  recovery_count = 0;
  created_at = 5;
  updated_at = 10;
}

abbrev fresh_job : AnalysisJob
fresh_job = record asking {
  id = 8;
  status = AnalysisJobStatus.received;
  locked_by = none;
  claim_token = none;
}

abbrev tables : ClarificationTables
tables = record {
  jobs = asking ∷ fresh_job ∷ [];
  attempts = [];
  clarifications = [];
  plans = [];
  events = record { current_organization_id = none; events = [] };
  audit_log = [];
  institutions = 3 ∷ [];
  reporting_periods = [];
  documents = [];
}

abbrev ask_institution : Call
ask_institution =
    require_call 50 7 (codes "INSTITUTION_REQUIRED") (codes "key") (codes "Which?") end 1 900 100

abbrev answer : Fields
answer = field (codes "institution_id") (Value.number 3) end

abbrev asked : ClarificationTables
asked = run platform service (ask_institution ∷ []) tables

tables-OneOpen : OneOpen tables
tables-OneOpen job = omega arith

get_open_clarification_total_example :
    OneOpen (run platform service (ask_institution ∷ cancel_call 7 50 [] 200 ∷ []) tables)
    × (get_open_clarification 7
          (run platform service (ask_institution ∷ cancel_call 7 50 [] 200 ∷ []) tables)
        ≢ none)
get_open_clarification_total_example =
    get_open_clarification_total platform service (ask_institution ∷ cancel_call 7 50 [] 200 ∷ [])
      tables 7 tables-OneOpen

asked-OneOpen : OneOpen asked
asked-OneOpen =
    (get_open_clarification_total platform service (ask_institution ∷ []) tables 7 tables-OneOpen).0

expire_due_clarifications_total_example :
    let batch = take 50 (select (is_due 5000) asked.clarifications) in
    (db' : ClarificationTables) × (expire_due_clarifications platform service 5000 50 asked
      ≡ (db', ok (min 50 (length (select (is_due 5000) asked.clarifications)))))
    × All (λ c. is_over (first_where (has_id c.analysis_job_id) db'.jobs) ≡ true) batch
expire_due_clarifications_total_example =
    expire_due_clarifications_total platform service 50 5000 asked asked-OneOpen (λ c. omega arith)

one_is_due : length (select (is_due 5000) asked.clarifications) ≡ 1
unfolding is_due run require_clarification ask_checked ask emit emit_event is_awaiting
    validate_transition is_allowed
one_is_due = refl

abbrev answered_tables : ClarificationTables
answered_tables = (respond platform service 7 50 answer 60 70 200 asked).0

abbrev answered_job : AnalysisJob
answered_job = record asking { updated_at = 200 }

accepts : respond platform service 7 50 answer 60 70 200 asked ≡ (answered_tables, ok answered_job)
unfolding respond run require_clarification ask_checked ask emit emit_event is_awaiting
    validate_transition is_allowed accept_checked accept answerable accepted_payload get_key
accepts = refl

-- A second answer and the batch come in between.
abbrev more_calls : List (ClarificationService × Call)
more_calls = (service, respond_call 7 50 answer 61 71 200) ∷ (service, expire_call 50 9000) ∷ []

abbrev later_tables : ClarificationTables
later_tables = run_by platform more_calls answered_tables

answered_once_example :
    respond platform service 7 50 answer 62 72 9001 later_tables
    ≡ (later_tables, err clarification_not_required)
unfolding asks
answered_once_example =
    answered_once platform service 7 50 50 answer answer 60 62 70 72 200 9001 asked answered_tables
      answered_job more_calls accepts (refl, (refl, tt))

abbrev claim_tables : ClaimTables
claim_tables = record { jobs = answered_tables.jobs; attempts = [] }

abbrev claimed_tables : ClaimTables
claimed_tables = (claim_next_analysis_job "w2" 902 9000 claim_tables).0

abbrev other_job : ClaimedAnalysisJob
other_job = record { job_id = 8; organization_id = 1; claim_token = 902 }

answered_is_stranded_example :
    (claim_next_analysis_job "w2" 902 9000 claim_tables ≡ (claimed_tables, ok (some other_job))
      → other_job.job_id ≢ 7)
    × (recover_next_stale_analysis_job "w2" 902 9000 claim_tables
          ≡ (claimed_tables, ok (some other_job))
        → other_job.job_id ≢ 7)
unfolding run require_clarification ask_checked ask emit emit_event is_awaiting validate_transition
    is_allowed
answered_is_stranded_example =
    answered_is_stranded platform service 7 50 answer 60 70 200 asked answered_tables answered_job
      [] "w2" 902 9000 claimed_tables other_job accepts (refl, (refl, tt))
