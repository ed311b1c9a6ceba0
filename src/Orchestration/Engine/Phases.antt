-- ===== src/Orchestration/Engine/Phases.antt =====
-- What each phase of a run leaves of the row of its job, so long as nobody else touches it.
use finance_intelligence.Orchestration.Engine.Execute.{complete, mark_completed, add_snapshot}
use finance_intelligence.Orchestration.Engine.Rows.{Sees}
use finance_intelligence.Orchestration.Engine.Ends.{Ends, Ends-bind, returned}
use finance_intelligence.Orchestration.Engine.Steps.{
  Inside, Holds, Kept, Fault, Kept-assert, Kept-check_breaker, Kept-advance, Kept-set_status,
  Kept-release, Kept-touch, Kept-write_attempt, Inside-same, Kept-emit, Kept-touch_any,
  Kept-check_move, Kept-fenced_update,
}
use finance_intelligence.Orchestration.Engine.{Session, Outcome, commit, EngineException}
use finance_intelligence.Orchestration.StateMachine.{validate_transition, AnalysisJobStatus}
use finance_intelligence.Orchestration.Store.{is_active, AnalysisJob, AttemptStatus}
use finance_intelligence.Orchestration.Engine.Run.{
  understand, make_plan, policy_check, reject, start_tools, add_decision, add_plan,
}
use finance_intelligence.Orchestration.Engine.Plan.{Collaborators, Execution, NormalizationOutcome}
use finance_intelligence.Prelude.{none, refl, ◌≡◌, List, true, ℕ}

-- The statuses in which a run that does not fail leaves its job.
pub data IsFinal : AnalysisJobStatus → Type 0 where
  is_completed : IsFinal AnalysisJobStatus.completed
  is_rejected : IsFinal AnalysisJobStatus.rejected_by_policy
  is_asking : IsFinal AnalysisJobStatus.needs_clarification

module _ (c : Collaborators) (x : Execution) where
  pub understand-Kept :
      {s : Session}
      → Inside x (Holds x AnalysisJobStatus.received) AnalysisJobStatus.received s
      → Kept x
          (Holds x AnalysisJobStatus.understanding_request)
          AnalysisJobStatus.understanding_request
          (understand c x s)
  unfolding understand is_active validate_transition
  understand-Kept v = Ends-bind (Kept-assert x c refl v) λ _ _ v₁.
      Ends-bind (Kept-emit x c _ _ v₁) λ _ _ v₂. Ends-bind (Kept-assert x c refl v₂) λ _ _ v₃.
        Ends-bind (Kept-advance x c AnalysisJobStatus.understanding_request refl v₃)
          λ _ _ v₄. Ends-bind (Kept-touch x c x.now v₄) λ _ _ v₅. Kept-emit x c _ _ v₅

  -- A phase that ends the run leaves the row in a final status, with no lease.
  abbrev pub Ended : AnalysisJobStatus → AnalysisJob → Type 0
  Ended status j = (j.status ≡ status) × (j.lease_expires_at ≡ none)

  -- What is known of the end of a run.
  abbrev pub Settles : Outcome AnalysisJobStatus → Type 0
  Settles o =
      Ends (λ status s. Sees x.job_id (Ended status) s.committed × IsFinal status) (Fault x) o

  pub reject-Settles :
      {status : AnalysisJobStatus} {s : Session}
      → Inside x (Holds x status) status s
      → Settles (reject c x s)
  unfolding reject commit
  reject-Settles {status} v =
      let st = AnalysisJobStatus.rejected_by_policy in
      Ends-bind (Kept-set_status x c {R' = λ j. j.status ≡ st} st v (λ j h. refl)) λ _ _ v₁.
        Ends-bind (Kept-release x c {R' = Ended st} v₁ (λ j h. (h, refl))) λ _ _ v₂.
          Ends-bind (Kept-write_attempt x c x.attempt_id AttemptStatus.rejected_by_policy v₂)
            λ _ _ v₃.
              Ends-bind (Kept-touch_any x c {R' = Ended st} x.now v₃ (λ j h. h))
                λ _ _ v₄. Ends-bind (Kept-emit x c _ _ v₄) λ _ _ v₅. returned (v₅.sees, is_rejected)

  pub make_plan-Kept :
      {s : Session} (o : NormalizationOutcome)
      → Inside x
          (Holds x AnalysisJobStatus.understanding_request)
          AnalysisJobStatus.understanding_request
          s
      → Kept x (Holds x AnalysisJobStatus.planning) AnalysisJobStatus.planning (make_plan c x o s)
  unfolding make_plan is_active validate_transition add_plan
  make_plan-Kept o v = Ends-bind (Kept-check_breaker x c x.clock v) λ _ _ v₁.
      Ends-bind (Kept-assert x c refl v₁) λ _ _ v₂.
        Ends-bind (Kept-advance x c AnalysisJobStatus.planning refl v₂) λ _ _ v₃.
          Ends-bind (Kept-touch x c x.now v₃) λ _ _ v₄.
            Ends-bind (Kept-emit x c _ _ v₄) λ _ _ v₅. returned (Inside-same x c _ v₅ refl)

  pub policy_check-Kept :
      {Q : EngineException → Session → Type 0} {s : Session}
      → Inside x (Holds x AnalysisJobStatus.planning) AnalysisJobStatus.planning s
      → Ends
          (λ a. Inside x (Holds x AnalysisJobStatus.policy_check) AnalysisJobStatus.policy_check)
          Q
          (policy_check c x s)
  unfolding policy_check is_active validate_transition add_decision
  policy_check-Kept v = Ends-bind (Kept-assert x c refl v) λ _ _ v₁.
      Ends-bind (Kept-advance x c AnalysisJobStatus.policy_check refl v₁)
        λ _ _ v₂. Ends-bind (Kept-touch x c x.now v₂) λ _ _ v₃. returned (Inside-same x c _ v₃ refl)

  pub start_tools-Kept :
      {Q : EngineException → Session → Type 0} {s : Session}
      → Inside x (Holds x AnalysisJobStatus.policy_check) AnalysisJobStatus.policy_check s
      → Ends
          (λ a.
            Inside x (Holds x AnalysisJobStatus.executing_tools) AnalysisJobStatus.executing_tools)
          Q
          (start_tools c x s)
  unfolding start_tools is_active validate_transition
  start_tools-Kept v = Ends-bind (Kept-assert x c refl v) λ _ _ v₁.
      Ends-bind (Kept-advance x c AnalysisJobStatus.retrieving_internal_sources refl v₁) λ _ _ v₂.
        Ends-bind (Kept-advance x c AnalysisJobStatus.validating_sources refl v₂)
          λ _ _ v₃. Kept-advance x c AnalysisJobStatus.executing_tools refl v₃

  pub complete-Settles :
      {s : Session} (narrative dataset : List ℕ)
      → Inside x (Holds x AnalysisJobStatus.quality_gate) AnalysisJobStatus.quality_gate s
      → Settles (complete c x narrative dataset s)
  unfolding complete commit is_active validate_transition mark_completed add_snapshot
  complete-Settles narrative dataset v =
      let st = AnalysisJobStatus.completed in
      Ends-bind (Kept-assert x c refl v) λ _ _ v₁.
        Ends-bind (Kept-check_move x c st v₁ refl) λ _ _ v₂.
          Ends-bind
            (Kept-fenced_update x c {R' = Ended st} (λ j. true) (mark_completed c x) v₂ (λ j. refl)
              (λ j h. (h.0, refl, (refl, refl))))
            λ _ _ v₃.
              Ends-bind (Kept-set_status x c {R' = Ended st} st v₃ (λ j h. (refl, h.1))) λ _ _ v₄.
                Ends-bind (Kept-release x c {R' = Ended st} v₄ (λ j h. (h.0, refl))) λ _ _ v₅.
                  Ends-bind (Kept-touch_any x c {R' = Ended st} x.now_completed v₅ (λ j h. h))
                    λ _ _ v₆.
                      Ends-bind (Kept-write_attempt x c x.attempt_id AttemptStatus.completed v₆)
                        λ _ _ v₇.
                          Ends-bind (Kept-emit x c _ _ (Inside-same x c _ v₇ refl))
                            λ _ _ v₈. returned (v₈.sees, is_completed)
