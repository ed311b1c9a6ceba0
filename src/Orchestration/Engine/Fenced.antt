-- ===== src/Orchestration/Engine/Fenced.antt =====
-- A run of a worker that has lost its job.

use finance_intelligence.Orchestration.Engine.{
  Session, is_lost, EngineTables, lost, assert_fenced_ownership, EngineException, raise_unless,
  rollback,
}
use finance_intelligence.Prelude.{
  Bool-cases, any, err, false, inl, inr, refl, ◌≡◌, String, ok, some, ℕ, ◌≢◌,
}
use finance_intelligence.Orchestration.Claims.{
  taken, ClaimTables, ClaimedAnalysisJob, recover_next_stale_analysis_job,
}
use finance_intelligence.Orchestration.Claims.Fencing.{not_held-not_renewable, recover-IsFencedFor}
use finance_intelligence.Orchestration.Store.{is_held_by}
use finance_intelligence.Orchestration.Engine.Run.{assert_owner}
use finance_intelligence.Orchestration.Engine.Ends.{Ends, raised}
use finance_intelligence.Orchestration.Engine.Plan.{Collaborators, Execution}
use finance_intelligence.Orchestration.Engine.Execute.{settle, handle, persist_failure, execute_job}

module _ (c : Collaborators) (x : Execution) where
  -- Nobody holds the job by this worker's token.
  abbrev pub IsTaken : EngineTables → Type 0
  IsTaken t = any (is_held_by x.job_id x.claim_token x.worker_id) t.rows.jobs ≡ false

  pub not_owner : (s : Session) → IsTaken s.current → assert_owner c x s ≡ (s, err lost)
  unfolding assert_owner assert_fenced_ownership raise_unless
  not_owner s taken =
      rw
        (
          not_held-not_renewable x.job_id x.claim_token x.worker_id s.current.rows.jobs taken,
          assert_owner,
          assert_fenced_ownership,
        )
        refl

  no_failure_written :
      (e : EngineException) (s : Session)
      → IsTaken s.current
      → persist_failure c x e s ≡ (s, err lost)
  unfolding persist_failure
  no_failure_written e s taken = rw (not_owner s taken, persist_failure) refl

  settle-taken :
      (t : EngineTables) (e : EngineException) (s : Session)
      → s.committed ≡ t
      → Ends (λ _ _. ⊥) (λ e' s'. s'.committed ≡ t) (settle c x e (s, err lost))
  unfolding settle rollback is_lost
  settle-taken t e s same = raised same

  -- The handlers write nothing to tables in which the job is taken.
  pub handle-taken :
      (t : EngineTables) (s : Session) (e : EngineException)
      → IsTaken t
      → s.committed ≡ t
      → Ends (λ _ _. ⊥) (λ e' s'. s'.committed ≡ t) (handle c x (s, err e))
  unfolding handle rollback
  handle-taken t s e taken same = elim (Bool-cases (is_lost e)) [
    | inl l ↦ rw (l, handle) (raised same)
    | inr f ↦
        let s' : Session = record s { current = s.committed } in
        let gone : IsTaken s'.current = rw same taken in
        rw (f, handle) (rw (no_failure_written e s' gone) (settle-taken t e s' same))
  ]

  -- The engine of a worker whose job was recovered does nothing at all: once
  -- `recover_next_stale_analysis_job` has given the job to another worker, under another token,
  -- `execute_job` by the old token raises CLAIM_OWNERSHIP_LOST and leaves the session as it was.
  pub stale_run_changes_nothing :
      (worker : String) (token now : ℕ) (db db' : ClaimTables) (job : ClaimedAnalysisJob)
      (s : Session)
      → recover_next_stale_analysis_job worker token now db ≡ (db', ok (some job))
      → x.job_id ≡ job.job_id
      → x.claim_token ≢ token
      → s.current.rows.jobs ≡ db'.jobs
      → execute_job c x s ≡ (s, err lost)
  unfolding execute_job
  stale_run_changes_nothing worker token now db db' job s e same other jobs =
      let (holds, nobody) = recover-IsFencedFor worker token now db db' job e in
      let gone : IsTaken s.current = rw (jobs, same) (nobody x.claim_token x.worker_id other) in
      rw (not_owner s gone, execute_job) refl
