-- ===== src/Orchestration/StateMachine/Graph.antt =====
-- The transition table read as a graph.
use finance_intelligence.Prelude.{◌≡◌, ◌⊎◌, Bool, true, false, ok, arith}
use finance_intelligence.Orchestration.StateMachine.{
  AnalysisJobStatus, received, understanding_request, planning, policy_check,
  retrieving_internal_sources, validating_sources, executing_tools, quality_gate, completed,
  needs_clarification, rejected_by_policy, failed, cancelled, expired, budget_exceeded,
  awaiting_human_review, is_terminal, is_allowed, validate_transition,
}

-- The table lists no transition out of a terminal status: the two tables agree.
pub terminal-not-is_allowed :
    (s t : AnalysisJobStatus) → is_terminal s ≡ true → is_allowed s t ≡ false
unfolding is_terminal is_allowed
terminal-not-is_allowed s t h = ground arith

-- So the second test alone decides whether a transition is accepted.
pub validate_transition-ok :
    (s t : AnalysisJobStatus) → validate_transition s t ≡ ok tt → is_allowed s t ≡ true
unfolding validate_transition
validate_transition-ok s t h = ground arith

-- The statuses that a job can have before its policy check, and those before its tools run.
unfoldable pub before_policy_check : AnalysisJobStatus → Bool
before_policy_check received = true
before_policy_check understanding_request = true
before_policy_check needs_clarification = true
before_policy_check planning = true
before_policy_check rejected_by_policy = true
before_policy_check failed = true
before_policy_check cancelled = true
before_policy_check expired = true
before_policy_check _ = false

unfoldable pub before_executing_tools : AnalysisJobStatus → Bool
unfolding before_policy_check
before_executing_tools policy_check = true
before_executing_tools retrieving_internal_sources = true
before_executing_tools validating_sources = true
before_executing_tools budget_exceeded = true
before_executing_tools s = before_policy_check s

unfoldable pub before_quality_gate : AnalysisJobStatus → Bool
before_quality_gate quality_gate = false
before_quality_gate awaiting_human_review = false
before_quality_gate completed = false
before_quality_gate _ = true

pub policy_check_edge :
    (s t : AnalysisJobStatus)
    → before_policy_check s ≡ true
    → is_allowed s t ≡ true
    → (t ≡ policy_check) ⊎ (before_policy_check t ≡ true)
unfolding before_policy_check is_allowed
policy_check_edge s t h e = ground arith

pub executing_tools_edge :
    (s t : AnalysisJobStatus)
    → before_executing_tools s ≡ true
    → is_allowed s t ≡ true
    → (t ≡ executing_tools) ⊎ (before_executing_tools t ≡ true)
unfolding before_executing_tools is_allowed
executing_tools_edge s t h e = ground arith

pub quality_gate_edge :
    (s t : AnalysisJobStatus)
    → before_quality_gate s ≡ true
    → is_allowed s t ≡ true
    → (t ≡ quality_gate) ⊎ (before_quality_gate t ≡ true)
unfolding before_quality_gate is_allowed
quality_gate_edge s t h e = ground arith
