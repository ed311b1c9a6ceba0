-- ===== src/Examples/StateMachine.antt =====
-- services/api/app/orchestration/state_machine.py: the life of a job that is completed.

use finance_intelligence.Prelude.{List, [], err, ok, refl, ◌∷◌, ◌≡◌}
use finance_intelligence.Orchestration.Exceptions.{invalid_state_transition}
use finance_intelligence.Orchestration.StateMachine.Traces.{completed-Passes_gates, Passes, advance}
use finance_intelligence.Orchestration.StateMachine.{
  received, generating_structured_result, quality_gate, AnalysisJobStatus,
  retrieving_internal_sources, validate_transition, planning, reconciling_results,
  understanding_request, validating_sources, executing_tools, policy_check, completed,
}

abbrev happy : List AnalysisJobStatus
happy =
    understanding_request ∷ planning ∷ policy_check ∷ retrieving_internal_sources
    ∷ validating_sources ∷ executing_tools ∷ reconciling_results ∷ generating_structured_result
    ∷ quality_gate ∷ completed ∷ []

happy_completes : advance received happy ≡ ok completed
unfolding advance validate_transition
happy_completes = refl

completed-Passes_gates_example :
    Passes policy_check happy × Passes executing_tools happy × Passes quality_gate happy
completed-Passes_gates_example = completed-Passes_gates happy happy_completes

skipping_is_refused : validate_transition received planning ≡ err invalid_state_transition
unfolding validate_transition
skipping_is_refused = refl
