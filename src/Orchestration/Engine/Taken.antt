-- ===== src/Orchestration/Engine/Taken.antt =====
-- A run whose job is taken by another worker while a tool is at work.
use finance_intelligence.Orchestration.Budget.{record_tool_call, verify_budget, default_tracker}
use finance_intelligence.Orchestration.Engine.Phases.{start_tools-Kept}
use finance_intelligence.Orchestration.Engine.Fenced.{IsTaken, not_owner, handle-taken}
use finance_intelligence.Orchestration.StateMachine.{AnalysisJobStatus, validate_transition}
use finance_intelligence.Orchestration.Engine.Steps.{Inside, Holds, emit_for-returns}
use finance_intelligence.Orchestration.EventEngine.{max_payload_bytes, emit_event}
use finance_intelligence.Orchestration.ToolDedup.{ToolInvocation, check_existing_invocation}
use finance_intelligence.Audit.{Fields}
use finance_intelligence.Orchestration.Engine.{
  ◌>>=◌, ◌>>◌, Session, EngineTables, assert_fenced_ownership, raise_unless, Outcome, and_then,
  pure, Action, check_move, set_status, write_job,
}
use finance_intelligence.Prelude.{
  Bool-cases, any, err, false, inl, inr, refl, ◌≡◌, none, ok, List, Option, String, length, ltb,
  some, ℕ, ◌∙◌, Result-cases, [], ◌∷◌,
}
use finance_intelligence.Orchestration.Claims.{is_renewable}
use finance_intelligence.Orchestration.Engine.Run.{
  assert_owner, emit_for, move, start_tools, emit_of_attempt,
}
use finance_intelligence.Orchestration.Engine.Ends.{
  returned, raised, Ends, Ends-bind, Ends-and, AtEnd,
}
use finance_intelligence.Orchestration.Engine.Plan.{Collaborators, Execution, PlanStep}
use finance_intelligence.Orchestration.Engine.Execute.{
  handle, obtain, add_invocation, conclude, run_step, started_payload, run_steps, charge,
}

module _ (c : Collaborators) (x : Execution) where
  -- The step has not been run before, as `ToolDeduplicationManager` finds.
  abbrev pub IsNewStep : PlanStep → List ToolInvocation → Type 0
  IsNewStep step invocations =
      check_existing_invocation c.platform.dumps_sorted c.platform.sha256 x.organization_id x.job_id
        step.tool_name step.tool_arguments invocations
      ≡ none

  -- The event that announces the step is within the limit on payloads.
  abbrev pub StartFits : PlanStep → Type 0
  StartFits step = ltb max_payload_bytes (length (c.platform.dumps (started_payload step))) ≡ false

  -- Statements that add no invocation of a tool.
  abbrev Keeps : {A : Type 0} → Action A → Type 0
  Keeps m = (s : Session) → (m s).0.current.tool_invocations ≡ s.current.tool_invocations

  Keeps-bind :
      {A B : Type 0} (m : Action A) (f : A → Action B)
      → Keeps m
      → ((a : A) → Keeps (f a))
      → Keeps (m >>= f)
  Keeps-bind {A} {B} m f first next s = through (m s) (first s)
    where
      through :
          (o : Outcome A)
          → o.0.current.tool_invocations ≡ s.current.tool_invocations
          → (and_then o f).0.current.tool_invocations ≡ s.current.tool_invocations
      through (t, ok a) e = next a t ∙ e
      through (t, err x) e = e

  check_move-Keeps : (status : AnalysisJobStatus) → Keeps (check_move status)
  unfolding check_move
  check_move-Keeps status s = elim (Result-cases (validate_transition s.job_status status)) [
    | inl (u, p) ↦ rw (p, check_move) refl
    | inr (e, p) ↦ rw (p, check_move) refl
  ]

  move-Keeps : (status : AnalysisJobStatus) → Keeps (move c x status)
  unfolding move set_status write_job
  move-Keeps status = Keeps-bind (check_move status) _ (check_move-Keeps status) (λ _ s. refl)

  emit_for-Keeps :
      (attempt : Option ℕ) (event_type : String) (payload : Fields)
      → Keeps (emit_for c x attempt event_type payload)
  unfolding emit_for
  emit_for-Keeps attempt event_type payload s =
      elim (Result-cases
        (emit_event x.organization_id x.job_id attempt event_type (c.platform.dumps payload)
          s.current.rows.events).1) [
            | inl (e, p) ↦ rw (p, emit_for) refl
            | inr (e, p) ↦ rw (p, emit_for) refl
          ]

  assert_owner-Keeps : Keeps (assert_owner c x)
  unfolding assert_owner assert_fenced_ownership raise_unless
  assert_owner-Keeps s =
      elim (Bool-cases
        (any (is_renewable x.job_id x.claim_token x.worker_id) s.current.rows.jobs)) [
          | inl p ↦ rw (p, assert_owner, assert_fenced_ownership) refl
          | inr p ↦ rw (p, assert_owner, assert_fenced_ownership) refl
        ]

  -- The table is the same at either end.
  abbrev SameInvocations : {A : Type 0} → List ToolInvocation → Outcome A → Type 0
  SameInvocations l o =
      AtEnd (λ _ t. t.current.tool_invocations ≡ l) (λ _ t. t.current.tool_invocations ≡ l) o

  Keeps-AtEnd :
      {A : Type 0} (o : Outcome A) (l : List ToolInvocation)
      → o.0.current.tool_invocations ≡ l
      → SameInvocations l o
  Keeps-AtEnd (s, ok a) l e = e
  Keeps-AtEnd (s, err x) l e = e

  start_tools-Keeps : Keeps (start_tools c x)
  unfolding start_tools
  start_tools-Keeps = Keeps-bind (assert_owner c x) _ assert_owner-Keeps λ _.
      Keeps-bind (move c x AnalysisJobStatus.retrieving_internal_sources) _ (move-Keeps _) λ _.
        Keeps-bind (move c x AnalysisJobStatus.validating_sources) _ (move-Keeps _)
          λ _. move-Keeps AnalysisJobStatus.executing_tools

  -- The tools end with the rows committed, in which the job is taken.
  pub record LosesJob (t : EngineTables) : Type 0 where
    pub taken : IsTaken c x t
    pub committed : (step : PlanStep) (s : Session) → (c.run_tool step s).0.committed ≡ t
    pub current : (step : PlanStep) (s : Session) → (c.run_tool step s).0.current ≡ t

  module _ (t : EngineTables) (loses : LosesJob t) where
    after_tool :
        (step : PlanStep) (o : Outcome Fields)
        → o.0.committed ≡ t
        → o.0.current ≡ t
        → Ends {A = Fields × ℕ}
            (λ _ _. ⊥)
            (λ e s'. s'.committed ≡ t)
            (and_then o λ result.
              assert_owner c x >> (add_invocation c x step result >> pure (result, c.exec_ms)))
    after_tool step (s, err e) saved seen = raised saved
    after_tool step (s, ok result) saved seen =
        let gone : IsTaken c x s.current = rw seen (loses.taken) in
        rw (not_owner c x s gone) (raised saved)

    obtain-taken :
        (step : PlanStep) (s : Session)
        → Ends (λ _ _. ⊥) (λ e s'. s'.committed ≡ t) (obtain c x step none s)
    unfolding obtain
    obtain-taken step s =
        after_tool step (c.run_tool step s) (loses.committed step s) (loses.current step s)

    run_step-taken :
        {s : Session} (step : PlanStep)
        → Inside x (Holds x AnalysisJobStatus.executing_tools) AnalysisJobStatus.executing_tools s
        → IsNewStep step s.current.tool_invocations
        → StartFits step
        → Ends (λ _ _. ⊥) (λ e s'. s'.committed ≡ t) (run_step c x step s)
    unfolding run_step emit_of_attempt
    run_step-taken {s} step v new fits =
        let start =
          emit_for c x (some x.attempt_id) "analysis.tool_started" (started_payload step) s in
        Ends-bind
          (Ends-and {o = start} (λ u. u.current.tool_invocations ≡ s.current.tool_invocations)
            (emit_for-returns x c (some x.attempt_id) "analysis.tool_started" (started_payload step)
              v fits)
            (Keeps-AtEnd start s.current.tool_invocations (emit_for-Keeps _ _ _ s)))
          λ _ s₁ h.
            let still : IsNewStep step s₁.current.tool_invocations = rw (h.1) new in
            rw still (Ends-bind (obtain-taken step s₁) λ _ _ q. absurd q)

    run_steps-taken :
        {s : Session} (step : PlanStep)
        → Inside x (Holds x AnalysisJobStatus.executing_tools) AnalysisJobStatus.executing_tools s
        → IsNewStep step s.current.tool_invocations
        → StartFits step
        → Ends (λ _ _. ⊥) (λ e s'. s'.committed ≡ t) (run_steps c x default_tracker (step ∷ []) s)
    unfolding run_steps charge record_tool_call verify_budget
    run_steps-taken step v new fits = Ends-bind (run_step-taken step v new fits) λ _ _ q. absurd q

    conclude-taken :
        {s : Session} (step : PlanStep)
        → Inside x (Holds x AnalysisJobStatus.policy_check) AnalysisJobStatus.policy_check s
        → IsNewStep step s.current.tool_invocations
        → StartFits step
        → Ends (λ _ _. ⊥) (λ e s'. s'.committed ≡ t) (conclude c x step s)
    unfolding conclude
    conclude-taken {s} step v new fits =
        let start = start_tools c x s in
        Ends-bind
          (Ends-and {o = start} (λ u. u.current.tool_invocations ≡ s.current.tool_invocations)
            (start_tools-Kept c x v)
            (Keeps-AtEnd start s.current.tool_invocations (start_tools-Keeps s)))
          λ _ s₁ h.
            let still : IsNewStep step s₁.current.tool_invocations = rw (h.1) new in
            Ends-bind (run_steps-taken step (h.0) still fits) λ _ _ q. absurd q

    handled :
        {o : Outcome AnalysisJobStatus}
        → Ends (λ _ _. ⊥) (λ e s'. s'.committed ≡ t) o
        → Ends (λ _ _. ⊥) (λ e s'. s'.committed ≡ t) (handle c x o)
    handled (returned q) = absurd q
    handled (raised {e} {s} q) = handle-taken c x t s e (loses.taken) q

    -- A job that is taken over while the tool is at work is left alone. From the start of the tools
    -- on, where the step is new and its first event fits, and whether the tool returns or raises:
    -- the run raises, and the tables that were committed when the tool ended are not written again,
    -- neither with a result nor with a failure.
    pub taken_job_is_left_alone :
        {s : Session} (step : PlanStep)
        → Inside x (Holds x AnalysisJobStatus.policy_check) AnalysisJobStatus.policy_check s
        → IsNewStep step s.current.tool_invocations
        → StartFits step
        → Ends (λ _ _. ⊥) (λ e s'. s'.committed ≡ t) (handle c x (conclude c x step s))
    taken_job_is_left_alone step v new fits = handled (conclude-taken step v new fits)
