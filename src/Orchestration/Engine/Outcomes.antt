-- ===== src/Orchestration/Engine/Outcomes.antt =====
-- How a whole run ends, so long as nobody else touches its job.
use mathlib.Core.Path.{subst}
use finance_intelligence.Orchestration.Claims.{is_renewable}
use finance_intelligence.Orchestration.EventEngine.{max_payload_bytes}
use finance_intelligence.Orchestration.Engine.Run.{reject, clarify, add_decision, assert_owner}
use finance_intelligence.Orchestration.Engine.Plan.{
  Collaborators, Execution, NormalizationOutcome, PlanStep,
}
use finance_intelligence.Orchestration.PolicyEngine.{evaluate_model_transmission}
use finance_intelligence.Orchestration.Engine.Rows.{Sees}
use finance_intelligence.Orchestration.Engine.Execute.{
  decide, proceed, normalise_request, run_phases, conclude, can_fail, persist_failure,
  failure_payload, mark_failed, may_fail,
}
use finance_intelligence.Orchestration.Engine.Tools.{LeavesJob, conclude-Settles}
use finance_intelligence.Prelude.{refl, ℕ, ◌≡◌, true, false, length, ltb, arith, sym}
use finance_intelligence.Orchestration.Engine.Ends.{Ends-bind, Ends, returned, Ends-if}
use finance_intelligence.Orchestration.Store.{is_active, AttemptStatus}
use finance_intelligence.Orchestration.Engine.Phases.{
  Settles, make_plan-Kept, policy_check-Kept, understand-Kept, reject-Settles, Ended,
}
use finance_intelligence.Orchestration.Engine.{commit, Session, EngineException, get_attempt}
use finance_intelligence.Orchestration.StateMachine.{AnalysisJobStatus}
use finance_intelligence.Orchestration.Engine.Steps.{
  Kept-assert, Holds, Inside, Kept-lift, Inside-same, Renewable, Kept-assert_owner,
  Kept-fenced_update, Kept-write_job, Kept-write_attempt, emit_for-returns,
}
use finance_intelligence.Orchestration.Engine.{◌>>◌}
use finance_intelligence.Orchestration.Engine.Asking.{clarify-Settles}

module _ (c : Collaborators) (x : Execution) (leaves : LeavesJob c x) where
  decide-Settles :
      {s : Session} (step : PlanStep)
      → Inside x (Holds x AnalysisJobStatus.planning) AnalysisJobStatus.planning s
      → Settles c x (decide c x step s)
  unfolding decide is_active
  decide-Settles step v = Ends-bind (policy_check-Kept c x v) λ _ s v₁.
      Ends-if _ (assert_owner c x >> reject c x) (conclude c x step) s
        (λ t. Ends-bind (Kept-assert x c refl v₁) λ _ _ v₂. reject-Settles c x v₂)
        (λ f. conclude-Settles c x leaves step v₁)

  proceed-Settles :
      {s : Session} (o : NormalizationOutcome)
      → Inside x
          (Holds x AnalysisJobStatus.understanding_request)
          AnalysisJobStatus.understanding_request
          s
      → Settles c x (proceed c x o s)
  unfolding proceed
  proceed-Settles o v = Ends-bind (make_plan-Kept c x o v) λ step _ v₁. decide-Settles step v₁

  normalise_request-Settles :
      {s : Session} (user attempt_number : ℕ)
      → Inside x
          (Holds x AnalysisJobStatus.understanding_request)
          AnalysisJobStatus.understanding_request
          s
      → Settles c x (normalise_request c x user attempt_number s)
  unfolding normalise_request
  normalise_request-Settles {s} user attempt_number v =
      Ends-bind (Kept-lift x c _ v (leaves.normaliser s.current)) λ o s' v₁.
        Ends-if _ (clarify c x user attempt_number o) (proceed c x o) s'
          (λ t. clarify-Settles c x user attempt_number o v₁) (λ f. proceed-Settles o v₁)

  pub run_phases-Settles :
      {s : Session} (user attempt_number : ℕ)
      → Inside x (Holds x AnalysisJobStatus.received) AnalysisJobStatus.received s
      → Settles c x (run_phases c x user attempt_number s)
  unfolding run_phases is_active add_decision
  run_phases-Settles user attempt_number v =
      let decision = evaluate_model_transmission x.request_classification true in
      Ends-bind (understand-Kept c x v) λ _ s v₁.
        Ends-if _ (assert_owner c x >> (add_decision c x decision >> reject c x))
          (normalise_request c x user attempt_number) s
          (λ t.
            Ends-bind (Kept-assert x c refl v₁)
              λ _ _ v₂. reject-Settles c x (Inside-same x c _ v₂ refl))
          (λ f. normalise_request-Settles user attempt_number v₁)

-- The failure transaction.
can_fail-active : (status : AnalysisJobStatus) → is_active status ≡ true → can_fail status ≡ true
unfolding can_fail is_active
can_fail-active AnalysisJobStatus.completed h = h
can_fail-active AnalysisJobStatus.rejected_by_policy h = h
can_fail-active AnalysisJobStatus.received h = refl
can_fail-active _ h = refl

module _ (c : Collaborators) (x : Execution) where
  -- The event of a failure is within the limit on payloads.
  abbrev pub FailureFits : Type 0
  FailureFits =
      (e : EngineException)
      → ltb max_payload_bytes (length (c.platform.dumps (failure_payload c x e))) ≡ false

  -- The failure is committed to the row that the worker still holds.
  pub persist_failure-Ends :
      (s : Session) (e : EngineException)
      → FailureFits
      → Sees x.job_id (Renewable x) s.committed
      → s.current ≡ s.committed
      → Ends
          (λ _ s'. Sees x.job_id (Ended c x AnalysisJobStatus.failed) s'.committed)
          (λ _ _. ⊥)
          (persist_failure c x e s)
  unfolding persist_failure get_attempt mark_failed commit may_fail is_renewable
  persist_failure-Ends s e fits v same =
      let start : Inside x (Renewable x) s.job_status s = record {
        saved = v;
        sees = subst (Sees x.job_id (Renewable x)) (sym same) v;
        object = refl;
      } in
      let st = AnalysisJobStatus.failed in
      Ends-bind (Kept-assert_owner x c start (λ j h. h)) λ _ _ v₁.
        Ends-bind
          (Kept-fenced_update x c {R' = Ended c x st} (may_fail c x) (mark_failed c x) v₁
            (λ j. refl)
            (λ j h. (ground arith, can_fail-active j.status (ground arith), (refl, refl))))
          λ _ _ v₂.
            Ends-bind
              (Kept-write_job x c {R' = Ended c x st} (mark_failed c x) v₂ (λ j. refl)
                (λ j h. (refl, refl)))
              λ _ s' v₃.
                Ends-bind (Kept-write_attempt x c x.attempt_id AttemptStatus.failed v₃) λ _ _ v₄.
                  Ends-bind (emit_for-returns x c _ _ _ v₄ (fits e)) λ _ _ v₅. returned (v₅.sees)
