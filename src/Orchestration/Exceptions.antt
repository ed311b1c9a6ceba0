-- ===== src/Orchestration/Exceptions.antt =====
-- services/api/app/orchestration/exceptions.py: an exception is its code. The messages are texts
-- for people and are left out.

-- The codes of the classes of exceptions.py, and after them the codes that the engine and the
-- state machine pass to `OrchestrationException` themselves.
pub data OrchestrationException : Type 0 where
  model_provider_not_configured model_capability_unavailable model_failover_prohibited
        prompt_template_integrity_failed policy_denied analysis_plan_invalid tool_not_allowed
        tool_input_invalid analysis_budget_exceeded unsupported_numeric_claim quality_gate_failed
        claim_ownership_lost :
      OrchestrationException
  terminal_state_mutation_prohibited invalid_state_transition dataset_not_found :
      OrchestrationException
