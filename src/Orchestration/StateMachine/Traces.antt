-- ===== src/Orchestration/StateMachine/Traces.antt =====
-- Sequences of validated transitions.
use finance_intelligence.Prelude.{
  ◌≡◌, refl, ◌⊎◌, inl, inr, Bool, true, false, List, [], ◌∷◌, Result, ok, err, Result-cases, arith,
}
use finance_intelligence.Orchestration.Exceptions.{
  OrchestrationException, terminal_state_mutation_prohibited,
}
use finance_intelligence.Orchestration.StateMachine.{
  AnalysisJobStatus, received, understanding_request, planning, policy_check,
  retrieving_internal_sources, validating_sources, executing_tools, reconciling_results,
  generating_structured_result, quality_gate, completed, needs_clarification, cancelled,
  awaiting_human_review, is_terminal, is_allowed, validate_transition,
}
use finance_intelligence.Orchestration.StateMachine.Graph.{
  validate_transition-ok, before_policy_check, before_executing_tools, before_quality_gate,
  policy_check_edge, executing_tools_edge, quality_gate_edge,
}

-- A job that asks for each status of a list in turn; the first refusal ends it.
unfoldable pub advance :
    AnalysisJobStatus → List AnalysisJobStatus → Result OrchestrationException AnalysisJobStatus
advance s [] = ok s
advance s (t ∷ ts) = elim (validate_transition s t) [ ok _ ↦ advance t ts | err e ↦ err e ]

-- The status occurs in the list.
abbrev pub Passes : AnalysisJobStatus → List AnalysisJobStatus → Type 0
Passes g [] = ⊥
Passes g (t ∷ ts) = (t ≡ g) ⊎ Passes g ts

-- A set of statuses that can be left only through `g`: a job that has left it has been in `g`.
module _ (inside : AnalysisJobStatus → Bool) (g : AnalysisJobStatus)
    (edge : (s t : AnalysisJobStatus)
      → inside s ≡ true
      → is_allowed s t ≡ true
      → (t ≡ g) ⊎ (inside t ≡ true)) where
  cut :
      (s u : AnalysisJobStatus) (ts : List AnalysisJobStatus)
      → inside s ≡ true
      → inside u ≡ false
      → advance s ts ≡ ok u
      → Passes g ts
  unfolding advance
  cut s u [] h k e = absurd (ground arith)
  cut s u (t ∷ ts) h k e = elim (Result-cases (validate_transition s t)) [
    | inl (_, p) ↦ elim (edge s t h (validate_transition-ok s t p)) [
      | inl q ↦ inl q
      | inr q ↦ inr (cut t u ts q k (rw (p, advance) at e))
    ]
    | inr (x, p) ↦ cc (rw (p, advance) at e)
  ]

-- Along every accepted sequence of statuses from RECEIVED to COMPLETED the job has been in
-- POLICY_CHECK, in EXECUTING_TOOLS and in QUALITY_GATE.
pub completed-Passes_gates :
    (ts : List AnalysisJobStatus)
    → advance received ts ≡ ok completed
    → Passes policy_check ts × Passes executing_tools ts × Passes quality_gate ts
unfolding before_policy_check before_executing_tools before_quality_gate
completed-Passes_gates ts e = (
  cut before_policy_check policy_check policy_check_edge received completed ts refl refl e,
  cut before_executing_tools executing_tools executing_tools_edge received completed ts refl refl e,
  cut before_quality_gate quality_gate quality_gate_edge received completed ts refl refl e,
)

-- A job in a terminal status stays there: whatever non-empty sequence of statuses is asked for, it
-- is refused as a mutation of a terminal state.
pub terminal_absorbs :
    (s t : AnalysisJobStatus) (ts : List AnalysisJobStatus)
    → is_terminal s ≡ true
    → advance s (t ∷ ts) ≡ err terminal_state_mutation_prohibited
unfolding advance validate_transition
terminal_absorbs s t ts h = ground arith

-- What is left of the way to COMPLETED from each status that has one.
abbrev from_tools : List AnalysisJobStatus
from_tools = reconciling_results ∷ generating_structured_result ∷ quality_gate ∷ completed ∷ []

abbrev from_planning : List AnalysisJobStatus
from_planning =
    policy_check ∷ retrieving_internal_sources ∷ validating_sources ∷ executing_tools ∷ from_tools

route : AnalysisJobStatus → List AnalysisJobStatus
route received = understanding_request ∷ planning ∷ from_planning
route understanding_request = planning ∷ from_planning
route needs_clarification = understanding_request ∷ planning ∷ from_planning
route planning = from_planning
route policy_check = retrieving_internal_sources ∷ validating_sources ∷ executing_tools ∷ from_tools
route retrieving_internal_sources = validating_sources ∷ executing_tools ∷ from_tools
route validating_sources = executing_tools ∷ from_tools
route executing_tools = from_tools
route reconciling_results = generating_structured_result ∷ quality_gate ∷ completed ∷ []
route generating_structured_result = quality_gate ∷ completed ∷ []
route quality_gate = completed ∷ []
route awaiting_human_review = completed ∷ []
route _ = []

-- No status that is not terminal is a dead end: from it the job can still be completed, and it can
-- be cancelled at once.
live_until_terminal :
    (s : AnalysisJobStatus)
    → is_terminal s ≡ false
    → ((ts : List AnalysisJobStatus) × (advance s ts ≡ ok completed))
      × (validate_transition s cancelled ≡ ok tt)
unfolding advance validate_transition route
live_until_terminal s h = ((route s, ground arith), ground arith)
