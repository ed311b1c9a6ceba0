-- ===== src/Orchestration/Engine/Denied.antt =====
-- A run that the policy turns down calls nobody.
use finance_intelligence.Orchestration.Engine.Ends.{and_then_congr}
use finance_intelligence.Orchestration.StateMachine.{AnalysisJobStatus}
use finance_intelligence.Orchestration.PolicyEngine.{evaluate_model_transmission}
use finance_intelligence.Orchestration.Engine.Execute.{
  execute_job, handle, persist_failure, run_phases, lock_job, settle, add_attempt, fenced_update,
  is_locked, may_fail, mark_failed, failure_payload,
}
use finance_intelligence.Orchestration.Engine.Run.{
  reject, understand, assert_owner, emit_of_attempt, release, emit_for, touch, move, add_decision,
}
use finance_intelligence.Audit.{Fields}
use finance_intelligence.Orchestration.Engine.Plan.{
  NormalizationOutcome, PlanStep, GateResult, Collaborators, Execution, is_deny,
}
use finance_intelligence.Prelude.{List, Result, refl, true, ℕ, ◌≡◌, ap, ◌∙◌}
use finance_intelligence.Orchestration.Engine.{
  EngineTables, EngineException, Action, Session, Outcome,
}

-- The same platform and clock, with another normaliser, other tools, provider and gates.
abbrev pub with_others :
    (EngineTables → Result EngineException NormalizationOutcome)
    → (PlanStep → Action Fields)
    → (PlanStep → List Fields → Result EngineException (List ℕ))
    → (List ℕ → Fields → Result EngineException (List GateResult))
    → Collaborators
    → Collaborators
with_others normaliser tool provider gates c = record c {
  normalize_request = normaliser;
  run_tool = tool;
  invoke_model = provider;
  run_all_gates = gates;
}

module _ (normaliser : EngineTables → Result EngineException NormalizationOutcome)
    (tool : PlanStep → Action Fields)
    (provider : PlanStep → List Fields → Result EngineException (List ℕ))
    (gates : List ℕ → Fields → Result EngineException (List GateResult)) (c : Collaborators)
    (x : Execution) where
  abbrev others : Collaborators
  others = with_others normaliser tool provider gates c

  understand-others : (s : Session) → understand others x s ≡ understand c x s
  unfolding understand emit_of_attempt emit_for assert_owner move touch
  understand-others s = refl

  reject-others : (s : Session) → reject others x s ≡ reject c x s
  unfolding reject release touch emit_of_attempt emit_for
  reject-others s = refl

  handle-others : (o : Outcome AnalysisJobStatus) → handle others x o ≡ handle c x o
  unfolding handle persist_failure settle assert_owner fenced_update may_fail mark_failed
      failure_payload emit_for
  handle-others o = refl

  run_phases-others :
      (user attempt_number : ℕ) (s : Session)
      → is_deny (evaluate_model_transmission x.request_classification true) ≡ true
      → run_phases others x user attempt_number s ≡ run_phases c x user attempt_number s
  unfolding run_phases understand emit_of_attempt emit_for assert_owner move touch add_decision
      reject release
  run_phases-others user attempt_number s denied = rw denied refl

  -- A denied request reaches nobody: neither the normaliser, nor a tool, nor the provider, nor the
  -- gates. Where the policy answers DENY to the classification of the request, `execute_job` ends in
  -- the same way and leaves the same rows, whatever these would have done.
  pub denied_reaches_nobody :
      (s : Session)
      → is_deny (evaluate_model_transmission x.request_classification true) ≡ true
      → execute_job others x s ≡ execute_job c x s
  unfolding execute_job assert_owner lock_job add_attempt is_locked
  denied_reaches_nobody s denied = and_then_congr (assert_owner c x s) _ _ λ _ s₁.
      and_then_congr (lock_job c x s₁) _ _ λ job s₂. and_then_congr (add_attempt c x s₂) _ _ λ n s₃.
        ap (handle others x) (run_phases-others job.user_id n s₃ denied)
        ∙ handle-others (run_phases c x job.user_id n s₃)
