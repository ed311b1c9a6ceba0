-- ===== src/Orchestration/Worker.antt =====
-- services/worker/app/analysis_worker.py: the process that takes analysis jobs and runs the engine
-- on them, with a heartbeat that keeps the lease. The engine and the other workers are parameters:
-- what they do to the tables between two steps of this worker is a function on the tables. `fetchone`
-- and the truth of the identifier of a row are those of the functions of Orchestration/Claims.
pub mod Heartbeat
use finance_intelligence.Prelude.{
  Bool, List, Result, String, [], err, false, if◌then◌else◌, none, not, ok, some, true, ℕ, ◌∷◌,
}
use finance_intelligence.Orchestration.Claims.{
  ClaimTables, claim_next_analysis_job, recovered, renew_analysis_job_lease,
  recover_next_stale_analysis_job, ClaimedAnalysisJob, ClaimError,
}

-- `class AnalysisWorker`; the interval, which only says how long to sleep, and the factory of
-- sessions are left out.
pub record AnalysisWorker : Type 0 where
  pub worker_id : String

-- One turn of the heartbeat: whether the engine has ended before and after the sleep, what others
-- did in the meantime, whether the session of the renewal raises, and the time.
pub record Pulse : Type 0 where
  pub done_before : Bool
  pub done_after : Bool
  pub others : ClaimTables → ClaimTables
  pub raises : Bool
  pub now : ℕ

pub data HeartbeatEnd : Type 0 where
  beating engine_done engine_cancelled : HeartbeatEnd

module _ (self : AnalysisWorker) where
  -- The renewal of a pulse; an error counts as a lease that is lost, and writes nothing.
  unfoldable pub renewal : ℕ → ℕ → Pulse → ClaimTables → ClaimTables × Bool
  renewal job token p db =
      if p.raises then (db, false) else renew_analysis_job_lease job token self.worker_id p.now db

  unfoldable pub lease_heartbeat_loop :
      ℕ → ℕ → List Pulse → ClaimTables → ClaimTables × HeartbeatEnd
  unfolding renewal
  lease_heartbeat_loop job token [] db = (db, beating)
  lease_heartbeat_loop job token (p ∷ ps) db =
      let db' = p.others db in
      let (db'', renewed) = renewal job token p db' in
      let rest = lease_heartbeat_loop job token ps db'' in
      if p.done_before
      then (db, engine_done)
      else if p.done_after
      then (db', engine_done)
      else if not renewed
      then (db'', engine_cancelled)
      else rest

-- How the task of the engine ends: `ClaimOwnershipLostException`, a cancellation, and any other
-- exception are told apart in the log only.
pub data EngineEnd : Type 0 where
  returned ownership_lost cancelled_by_heartbeat raised : EngineEnd

unfoldable pub job_outcome : EngineEnd → Bool
job_outcome returned = true
job_outcome ownership_lost = false
job_outcome cancelled_by_heartbeat = false
job_outcome raised = false

-- What a worker is given to do: the run of the engine on a claimed job, under its heartbeat.
abbrev pub Engine : Type 0
Engine = ClaimedAnalysisJob → ClaimTables → ClaimTables × EngineEnd

unfoldable pub process_analysis_job :
    Engine → ClaimedAnalysisJob → ClaimTables → ClaimTables × Result ClaimError Bool
unfolding job_outcome
process_analysis_job engine c db = let (db', how) = engine c db in (db', ok (job_outcome how))

module _ (self : AnalysisWorker) (engine : Engine) where
  -- The second transaction, when the first has found nothing.
  unfoldable pub recover_and_process : ℕ → ℕ → ClaimTables → ClaimTables × Result ClaimError Bool
  unfolding process_analysis_job
  recover_and_process token now db =
      let (db', recovered) = recover_next_stale_analysis_job self.worker_id token now db in
      elim recovered [
        | err e ↦ (db', err e)
        | ok none ↦ (db', ok false)
        | ok (some c) ↦ process_analysis_job engine c db'
      ]

  -- The tokens are those that the two functions draw, and the times those of their transactions.
  unfoldable pub run_once : ℕ → ℕ → ℕ → ℕ → ClaimTables → ClaimTables × Result ClaimError Bool
  unfolding process_analysis_job recover_and_process
  run_once token now token' later db =
      let (db', claimed) = claim_next_analysis_job self.worker_id token now db in
      elim claimed [
        | err e ↦ (db', err e)
        | ok none ↦ recover_and_process token' later db'
        | ok (some c) ↦ process_analysis_job engine c db'
      ]
