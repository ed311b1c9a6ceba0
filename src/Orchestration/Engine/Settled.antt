-- ===== src/Orchestration/Engine/Settled.antt =====
-- The end of every run of `execute_job` whose job nobody else touches.
use finance_intelligence.Prelude.{arith, refl, some, sym, true, ◌≡◌}
use finance_intelligence.Orchestration.Engine.Tools.{LeavesJob}
use finance_intelligence.Orchestration.Engine.Rows.{Sees-mono, Sees, first_where-select}
use finance_intelligence.Orchestration.Store.{
  AnalysisJob, is_active, first_where, has_id, is_held_by,
}
use mathlib.Core.Path.{subst}
use finance_intelligence.Orchestration.Engine.Steps.{
  Inside, Holds-Renewable, Holds, Renewable, Kept-assert_owner, Inside-same,
}
use finance_intelligence.Orchestration.Engine.Ends.{Ends, returned, raised, Ends-bind}
use finance_intelligence.Orchestration.Engine.{Session, EngineException, rollback, Outcome}
use finance_intelligence.Orchestration.Engine.Outcomes.{
  FailureFits, persist_failure-Ends, run_phases-Settles,
}
use finance_intelligence.Orchestration.Engine.Plan.{Collaborators, Execution}
use finance_intelligence.Orchestration.Engine.Phases.{IsFinal, Settles, Ended}
use finance_intelligence.Orchestration.Engine.Execute.{
  settle, lock_job, execute_job, add_attempt, handle, is_locked,
}
use finance_intelligence.Orchestration.StateMachine.{AnalysisJobStatus}

module _ (c : Collaborators) (x : Execution) where
  -- What is committed when a run has ended. Where it returned, the job has the final status that is
  -- returned; where it raised, the job has failed. In either case the lease is given up.
  abbrev pub IsSettled : Outcome AnalysisJobStatus → Type 0
  IsSettled o =
      Ends (λ status s. Sees x.job_id (Ended c x status) s.committed × IsFinal status)
        (λ e s. Sees x.job_id (Ended c x AnalysisJobStatus.failed) s.committed) o

  settle-IsSettled :
      (e : EngineException) {o : Outcome (Unit {0})}
      → Ends (λ _ s. Sees x.job_id (Ended c x AnalysisJobStatus.failed) s.committed) (λ _ _. ⊥) o
      → IsSettled (settle c x e o)
  unfolding settle
  settle-IsSettled e (returned p) = raised p
  settle-IsSettled e (raised q) = absurd q

  handle-IsSettled :
      {o : Outcome AnalysisJobStatus} → FailureFits c x → Settles c x o → IsSettled (handle c x o)
  unfolding handle rollback
  handle-IsSettled fits (returned p) = returned p
  handle-IsSettled fits (raised {e} {s} q) =
      rw (q.1, handle)
        (settle-IsSettled e
          (persist_failure-Ends c x (record s { current = s.committed }) e fits q.0 refl))

  -- The worker holds a received job of the tenant.
  abbrev pub IsClaimed : AnalysisJob → Type 0
  IsClaimed j = Holds x AnalysisJobStatus.received j × (j.organization_id ≡ x.organization_id)

  lock_job-Ends :
      {Q : EngineException → Session → Type 0} (s : Session)
      → Sees x.job_id (Renewable x) s.committed
      → Sees x.job_id IsClaimed s.current
      → Ends
          (λ j s'. Inside x (Holds x AnalysisJobStatus.received) AnalysisJobStatus.received s')
          Q
          (lock_job c x s)
  unfolding lock_job is_locked is_held_by
  lock_job-Ends s saved v =
      let hit : is_locked c x v.row ≡ true = ground arith in
      let e : first_where (is_locked c x) s.current.rows.jobs ≡ some v.row =
        rw
          (first_where-select (has_id x.job_id) (is_locked c x) s.current.rows.jobs
            (λ y h. ground arith))
          (rw (v.only) (rw hit refl)) in
      rw (e, lock_job)
        (returned (record { saved = saved; sees = Sees-mono v (λ j h. h.0); object = v.holds.0.1 }))

  -- When the worker holds a received job of its tenant, nobody else touches that job during the run,
  -- the session starts with nothing uncommitted, and the payload of the failure event of every
  -- exception is at most 32768 bytes long, `execute_job` returns with the job committed as COMPLETED,
  -- REJECTED_BY_POLICY or NEEDS_CLARIFICATION, which it also returns, or it raises with the job
  -- committed as FAILED; in every case the lease is given up.
  pub execute_job-IsSettled :
      (s : Session)
      → LeavesJob c x
      → FailureFits c x
      → s.current ≡ s.committed
      → Sees x.job_id IsClaimed s.committed
      → IsSettled (execute_job c x s)
  unfolding execute_job add_attempt is_active
  execute_job-IsSettled s leaves fits same v =
      let held : Sees x.job_id (Renewable x) s.committed =
        Sees-mono v (λ j h. Holds-Renewable x AnalysisJobStatus.received j refl h.0) in
      let start : Inside x IsClaimed s.job_status s = record {
        saved = held;
        sees = subst (Sees x.job_id IsClaimed) (sym same) v;
        object = refl;
      } in
      Ends-bind
        (Kept-assert_owner x c start
          (λ j h. Holds-Renewable x AnalysisJobStatus.received j refl h.0))
        λ _ s₁ v₁. Ends-bind (lock_job-Ends s₁ v₁.saved v₁.sees) λ j s₂ v₂.
          handle-IsSettled fits
            (run_phases-Settles c x leaves j.user_id _ (Inside-same x c _ v₂ refl))
