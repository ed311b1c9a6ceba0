-- ===== src/Orchestration/StateMachine.antt =====
-- services/api/app/orchestration/state_machine.py: the statuses of an analysis job, and the table
-- of transitions that every change of status is checked against.

pub mod Graph
pub mod Traces
use finance_intelligence.Prelude.{Bool, true, false, Result, ok, err, if◌then◌else◌}
use finance_intelligence.Orchestration.Exceptions.{
  OrchestrationException, terminal_state_mutation_prohibited, invalid_state_transition,
}

-- `class AnalysisJobStatus`.
pub data AnalysisJobStatus : Type 0 where
  received understanding_request planning policy_check retrieving_internal_sources
        validating_sources executing_tools reconciling_results generating_structured_result
        quality_gate completed needs_clarification rejected_by_policy failed cancelled expired
        budget_exceeded awaiting_human_review :
      AnalysisJobStatus

pub AnalysisJobStatus-discrete : Discrete AnalysisJobStatus
AnalysisJobStatus-discrete = hlevel

-- `current_status in TERMINAL_STATES`.
unfoldable pub is_terminal : AnalysisJobStatus → Bool
is_terminal completed = true
is_terminal rejected_by_policy = true
is_terminal failed = true
is_terminal cancelled = true
is_terminal expired = true
is_terminal budget_exceeded = true
is_terminal _ = false

-- `new_status in VALID_TRANSITIONS.get(current_status, set())`, the new status second.
unfoldable pub is_allowed : AnalysisJobStatus → AnalysisJobStatus → Bool
is_allowed received understanding_request = true
is_allowed received cancelled = true
is_allowed understanding_request needs_clarification = true
is_allowed understanding_request planning = true
is_allowed understanding_request rejected_by_policy = true
is_allowed understanding_request failed = true
is_allowed understanding_request cancelled = true
is_allowed needs_clarification understanding_request = true
is_allowed needs_clarification expired = true
is_allowed needs_clarification cancelled = true
is_allowed needs_clarification failed = true
is_allowed planning policy_check = true
is_allowed planning failed = true
is_allowed planning cancelled = true
is_allowed policy_check retrieving_internal_sources = true
is_allowed policy_check rejected_by_policy = true
is_allowed policy_check failed = true
is_allowed policy_check cancelled = true
is_allowed retrieving_internal_sources validating_sources = true
is_allowed retrieving_internal_sources failed = true
is_allowed retrieving_internal_sources budget_exceeded = true
is_allowed retrieving_internal_sources cancelled = true
is_allowed validating_sources executing_tools = true
is_allowed validating_sources needs_clarification = true
is_allowed validating_sources failed = true
is_allowed validating_sources cancelled = true
is_allowed executing_tools reconciling_results = true
is_allowed executing_tools failed = true
is_allowed executing_tools budget_exceeded = true
is_allowed executing_tools cancelled = true
is_allowed reconciling_results generating_structured_result = true
is_allowed reconciling_results failed = true
is_allowed reconciling_results cancelled = true
is_allowed generating_structured_result quality_gate = true
is_allowed generating_structured_result failed = true
is_allowed generating_structured_result cancelled = true
is_allowed quality_gate completed = true
is_allowed quality_gate awaiting_human_review = true
is_allowed quality_gate failed = true
is_allowed quality_gate cancelled = true
is_allowed awaiting_human_review completed = true
is_allowed awaiting_human_review rejected_by_policy = true
is_allowed awaiting_human_review failed = true
is_allowed awaiting_human_review cancelled = true
is_allowed _ _ = false

-- `AnalysisStateMachine.validate_transition`.
unfoldable pub validate_transition :
    AnalysisJobStatus → AnalysisJobStatus → Result OrchestrationException (Unit {0})
unfolding is_terminal is_allowed
validate_transition current_status new_status =
    if is_terminal current_status
    then err terminal_state_mutation_prohibited
    else if is_allowed current_status new_status
    then ok tt
    else err invalid_state_transition
