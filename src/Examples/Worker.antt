-- ===== src/Examples/Worker.antt =====
-- services/worker/app/analysis_worker.py: a worker on one job, left alone and overtaken.
use finance_intelligence.Orchestration.Claims.Recovery.{ClaimOp, apply_all, renew}
use finance_intelligence.Prelude.{[], arith, false, ok, refl, some, ℕ, ◌∷◌, ◌≡◌, List}
use finance_intelligence.Orchestration.StateMachine.{AnalysisJobStatus}
use finance_intelligence.Orchestration.Store.{is_active, is_held_by, AnalysisJob}
use finance_intelligence.Orchestration.Worker.Heartbeat.{
  recovered_job_is_cancelled, heartbeat_survives, IsLeased,
}
use finance_intelligence.Orchestration.Claims.{
  is_renewable, ClaimedAnalysisJob, ClaimTables, lapsed_before, recover_next_stale_analysis_job,
  is_unsafe_worker_id, is_stale,
}
use finance_intelligence.Orchestration.Worker.{
  AnalysisWorker, lease_heartbeat_loop, Pulse, beating, engine_cancelled, HeartbeatEnd,
}

abbrev worker : AnalysisWorker
worker = record { worker_id = "w1" }

abbrev held : AnalysisJob
held = record {
  id = 4;
  organization_id = 1;
  user_id = 1;
  status = AnalysisJobStatus.received;
  locked_by = some "w1";
  locked_at = some 0;
  lease_expires_at = some 900;
  claim_token = some 901;
  recovery_count = 0;
  created_at = 0;
  updated_at = 0;
}

abbrev tables : ClaimTables
tables = record { jobs = held ∷ []; attempts = [] }

abbrev pulse : (ClaimTables → ClaimTables) → ℕ → Pulse
pulse others now = record {
  done_before = false;
  done_after = false;
  others = others;
  raises = false;
  now = now;
}

abbrev beaten : ClaimTables × HeartbeatEnd
beaten = lease_heartbeat_loop worker 4 901 (pulse (λ db. db) 60 ∷ pulse (λ db. db) 120 ∷ []) tables

heartbeat_survives_example : (beaten.1 ≡ beating) × IsLeased 4 901 "w1" 120 beaten.0.jobs
unfolding is_unsafe_worker_id is_renewable is_held_by is_active
heartbeat_survives_example =
    heartbeat_survives worker 4 901 (pulse (λ db. db) 60 ∷ []) (pulse (λ db. db) 120) tables refl
      refl (((λ db. refl), refl, refl, refl), (((λ db. refl), refl, refl, refl), tt))

-- The lease has lapsed, and another worker takes the job over between two pulses.
abbrev overtaken : ClaimTables
overtaken = (recover_next_stale_analysis_job "w2" 902 1000 tables).0

abbrev taken_over : ClaimedAnalysisJob
taken_over = record { job_id = 4; organization_id = 1; claim_token = 902 }

overtakes : recover_next_stale_analysis_job "w2" 902 1000 tables ≡ (overtaken, ok (some taken_over))
unfolding recover_next_stale_analysis_job is_unsafe_worker_id is_stale lapsed_before
overtakes = refl

-- The new worker renews its lease before the old one's next pulse.
abbrev renewals : List ClaimOp
renewals = renew 4 902 "w2" 1060 ∷ []

recovered_job_is_cancelled_example :
    lease_heartbeat_loop worker 4 901 (pulse (λ db. apply_all renewals overtaken) 1061 ∷ []) tables
    ≡ (apply_all renewals overtaken, engine_cancelled)
recovered_job_is_cancelled_example =
    recovered_job_is_cancelled worker "w2" 902 901 1000
      (pulse (λ db. apply_all renewals overtaken) 1061) [] tables tables overtaken taken_over
      renewals overtakes refl (omega arith) refl refl
