-- ===== src/Orchestration/Engine/Tools.antt =====
-- The phases of a run in which the collaborators are called, so long as these leave the job alone.
use finance_intelligence.Prelude.{
  List, Option, Result, [], arith, err, false, none, ok, refl, some, ℕ, ◌∷◌, ◌≡◌,
}
use finance_intelligence.Audit.{Fields}
use finance_intelligence.Orchestration.Exceptions.{OrchestrationException}
use finance_intelligence.Orchestration.Store.{is_active}
use finance_intelligence.Orchestration.StateMachine.{validate_transition, AnalysisJobStatus}
use finance_intelligence.Orchestration.Engine.Execute.{
  conclude, narrate, charge, run_step, run_steps, add_invocation, obtain, pass_gates, summary,
}
use finance_intelligence.Orchestration.Engine.Phases.{Settles, complete-Settles, start_tools-Kept}
use finance_intelligence.Orchestration.Engine.Steps.{
  Kept-lift, Kept-assert, Holds, Kept-advance, Kept, Inside-same, Inside, Kept-emit,
}
use finance_intelligence.Orchestration.Engine.Ends.{Ends-bind, returned, raised}
use finance_intelligence.Orchestration.Budget.{
  default_tracker, verify_budget, record_tool_call, JobBudgetTracker,
}
use finance_intelligence.Orchestration.Engine.{
  EngineException, is_lost, EngineTables, Session, orchestration, Outcome,
}
use finance_intelligence.Orchestration.Engine.Plan.{
  dataset_id, PlanStep, id_in, Execution, Collaborators,
}

-- The collaborators leave the job to the worker: a tool, which may commit, keeps the row of the job
-- held and executing, and none of them reports the loss of the claim.
pub record LeavesJob (c : Collaborators) (x : Execution) : Type 0 where
  pub normaliser :
      (t : EngineTables) (e : EngineException) → c.normalize_request t ≡ err e → is_lost e ≡ false
  pub tool :
      (step : PlanStep) (s : Session)
      → Inside x (Holds x AnalysisJobStatus.executing_tools) AnalysisJobStatus.executing_tools s
      → Kept x
          (Holds x AnalysisJobStatus.executing_tools)
          AnalysisJobStatus.executing_tools
          (c.run_tool step s)
  pub provider :
      (step : PlanStep) (outputs : List Fields) (e : EngineException)
      → c.invoke_model step outputs ≡ err e
      → is_lost e ≡ false
  pub gates :
      (narrative : List ℕ) (summary : Fields) (e : EngineException)
      → c.run_all_gates narrative summary ≡ err e
      → is_lost e ≡ false

dataset_id-not-lost :
    (outputs : List Fields) (e : EngineException) → dataset_id outputs ≡ err e → is_lost e ≡ false
unfolding dataset_id id_in is_lost
dataset_id-not-lost [] e h = ground arith
dataset_id-not-lost (o ∷ outputs) e h = ground arith

module _ (c : Collaborators) (x : Execution) (leaves : LeavesJob c x) where
  abbrev Executing : {A : Type 0} → Outcome A → Type 0
  Executing o =
      Kept x (Holds x AnalysisJobStatus.executing_tools) AnalysisJobStatus.executing_tools o

  obtain-Kept :
      {s : Session} (step : PlanStep) (known : Option Fields)
      → Inside x (Holds x AnalysisJobStatus.executing_tools) AnalysisJobStatus.executing_tools s
      → Executing (obtain c x step known s)
  unfolding obtain is_active add_invocation
  obtain-Kept step (some result) v = returned v
  obtain-Kept step none v =
      Ends-bind (leaves.tool step _ v)
        λ _ _ v₁. Ends-bind (Kept-assert x c refl v₁) λ _ _ v₂. returned (Inside-same x c _ v₂ refl)

  run_step-Kept :
      {s : Session} (step : PlanStep)
      → Inside x (Holds x AnalysisJobStatus.executing_tools) AnalysisJobStatus.executing_tools s
      → Executing (run_step c x step s)
  unfolding run_step
  run_step-Kept step v = Ends-bind (Kept-emit x c _ _ v) λ _ _ v₁.
      Ends-bind (obtain-Kept step _ v₁)
        λ _ _ v₂. Ends-bind (Kept-emit x c _ _ v₂) λ _ _ v₃. returned v₃

  charge-Kept :
      {s : Session} (r : Result OrchestrationException (Unit {0}))
      → Inside x (Holds x AnalysisJobStatus.executing_tools) AnalysisJobStatus.executing_tools s
      → ((e : OrchestrationException) → r ≡ err e → is_lost (orchestration e) ≡ false)
      → Executing (charge c x r s)
  unfolding charge
  charge-Kept (ok u) v calm = returned v
  charge-Kept (err e) v calm = raised (v.saved, calm e refl)

  record_tool_call-not-lost :
      (budget : JobBudgetTracker) (e : OrchestrationException)
      → (record_tool_call budget).1 ≡ err e
      → is_lost (orchestration e) ≡ false
  unfolding record_tool_call verify_budget is_lost
  record_tool_call-not-lost budget e h = ground arith

  run_steps-Kept :
      {s : Session} (budget : JobBudgetTracker) (steps : List PlanStep)
      → Inside x (Holds x AnalysisJobStatus.executing_tools) AnalysisJobStatus.executing_tools s
      → Executing (run_steps c x budget steps s)
  unfolding run_steps
  run_steps-Kept budget [] v = returned v
  run_steps-Kept budget (step ∷ steps) v =
      Ends-bind (charge-Kept _ v (record_tool_call-not-lost budget)) λ _ _ v₁.
        Ends-bind (run_step-Kept step v₁) λ _ _ v₂.
          Ends-bind (run_steps-Kept (record_tool_call budget).0 steps v₂) λ _ _ v₃. returned v₃

  narrate-Kept :
      {s : Session} (step : PlanStep) (outputs : List Fields)
      → Inside x (Holds x AnalysisJobStatus.executing_tools) AnalysisJobStatus.executing_tools s
      → Kept x
          (Holds x AnalysisJobStatus.generating_structured_result)
          AnalysisJobStatus.generating_structured_result
          (narrate c x step outputs s)
  unfolding narrate is_active validate_transition
  narrate-Kept step outputs v = Ends-bind (Kept-assert x c refl v) λ _ _ v₁.
      Ends-bind (Kept-advance x c AnalysisJobStatus.reconciling_results refl v₁) λ _ _ v₂.
        Ends-bind (Kept-advance x c AnalysisJobStatus.generating_structured_result refl v₂)
          λ _ _ v₃. Ends-bind (Kept-lift x c _ v₃ (leaves.provider step outputs)) λ _ _ v₄.
            Ends-bind (Kept-lift x c _ v₄ (dataset_id-not-lost outputs)) λ _ _ v₅. returned v₅

  pass_gates-Kept :
      {s : Session} (narrative dataset : List ℕ)
      → Inside x
          (Holds x AnalysisJobStatus.generating_structured_result)
          AnalysisJobStatus.generating_structured_result
          s
      → Kept x
          (Holds x AnalysisJobStatus.quality_gate)
          AnalysisJobStatus.quality_gate
          (pass_gates c x narrative dataset s)
  unfolding pass_gates is_active validate_transition
  pass_gates-Kept narrative dataset v = Ends-bind (Kept-assert x c refl v) λ _ _ v₁.
      Ends-bind (Kept-advance x c AnalysisJobStatus.quality_gate refl v₁) λ _ _ v₂.
        Ends-bind (Kept-lift x c _ v₂ (leaves.gates narrative (summary c x dataset)))
          λ _ _ v₃. returned (Inside-same x c _ v₃ refl)

  pub conclude-Settles :
      {s : Session} (step : PlanStep)
      → Inside x (Holds x AnalysisJobStatus.policy_check) AnalysisJobStatus.policy_check s
      → Settles c x (conclude c x step s)
  unfolding conclude
  conclude-Settles step v = Ends-bind (start_tools-Kept c x v) λ _ _ v₁.
      Ends-bind (run_steps-Kept default_tracker (step ∷ []) v₁) λ outputs _ v₂.
        Ends-bind (narrate-Kept step outputs v₂) λ result _ v₃.
          Ends-bind (pass_gates-Kept result.0 result.1 v₃)
            λ _ _ v₄. complete-Settles c x result.0 result.1 v₄
