-- ===== src/Examples/Lifecycle.antt =====
-- services/api/app/services/state_machine.py: one queued job, two workers.
use finance_intelligence.Prelude.{List, [], err, map, none, ok, refl, ◌∷◌, ◌≡◌}
use finance_intelligence.Ingestion.Lifecycle.Race.{second_worker_loses}
use finance_intelligence.Ingestion.Lifecycle.Transition.{
  is_completion, is_owned, transition_job, transition_row, ingestion_job, transition, same_job,
  moved, invalid_transition, Entity, Tables,
}
use finance_intelligence.Ingestion.Lifecycle.Audit.{
  call_all-Audited, Request, call_all, Audited, call,
}
use finance_intelligence.Ingestion.Lifecycle.{
  JobStatus, is_job_extraction_end, job_allows, JobStatus-discrete,
}

abbrev job : Entity JobStatus
job = record { id = 5; organization_id = 1; status = JobStatus.queued; at = none }

abbrev tables : Tables JobStatus
tables = record { rows = job ∷ []; audit_log = [] }

-- The first worker's call, a call of another tenant, the second worker's, and the end of the job.
abbrev start_parsing : Request JobStatus
start_parsing = record {
  id = 5;
  expected_state = JobStatus.queued;
  target_state = JobStatus.parsing;
  organization_id = 1;
  actor_id = none;
  now = 100;
}

abbrev requests : List (Request JobStatus)
requests =
    start_parsing
    ∷ record start_parsing { organization_id = 2 }
    ∷ start_parsing
    ∷ record start_parsing {
      expected_state = JobStatus.parsing;
      target_state = JobStatus.completed;
    }
    ∷ []

completes :
    map
      (λ r. r.status)
      (call_all same_job job_allows is_completion ingestion_job requests tables).rows
    ≡ JobStatus.completed ∷ []
unfolding call_all call transition transition_row is_owned moved same_job JobStatus-discrete
    job_allows is_job_extraction_end
completes = refl

call_all-Audited_example :
    Audited job_allows 5 1 tables job
      (call_all same_job job_allows is_completion ingestion_job requests tables)
unfolding is_owned
call_all-Audited_example =
    call_all-Audited same_job job_allows is_completion ingestion_job requests tables 5 1 job refl

abbrev after : Tables JobStatus
after = (transition_job 5 JobStatus.queued JobStatus.parsing 1 none 100 tables).0

first_wins :
    transition_job 5 JobStatus.queued JobStatus.parsing 1 none 100 tables
    ≡ (after, ok (record job { status = JobStatus.parsing }))
unfolding transition_job transition transition_row is_owned moved same_job JobStatus-discrete
    job_allows is_completion
first_wins = refl

second_worker_loses_example :
    transition_job 5 JobStatus.queued JobStatus.failed 1 none 101 after
    ≡ (after, err invalid_transition)
second_worker_loses_example =
    second_worker_loses 5 JobStatus.queued JobStatus.parsing JobStatus.failed 1 none none 100 101
      tables after _ first_wins
