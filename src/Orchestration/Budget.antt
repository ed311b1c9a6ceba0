-- ===== src/Orchestration/Budget.antt =====
-- services/api/app/orchestration/budget.py: the limits on what one analysis may spend. Costs are
-- counted in a fixed small unit, in which the program's `Decimal` sums are exact; the amounts that
-- are added are not negative.
pub mod Spending
use finance_intelligence.Prelude.{ℕ, ◌+◌, Result, ok, err, ◌>>◌, raise_if, ltb}
use finance_intelligence.Orchestration.Exceptions.{OrchestrationException, analysis_budget_exceeded}

-- `class JobBudgetTracker`.
pub record JobBudgetTracker : Type 0 where
  pub max_model_invocations : ℕ
  pub max_tool_calls : ℕ
  pub max_tool_depth : ℕ
  pub max_prompt_tokens : ℕ
  pub max_completion_tokens : ℕ
  pub max_cost_usd : ℕ
  pub current_model_invocations : ℕ
  pub current_tool_calls : ℕ
  pub current_tool_depth : ℕ
  pub current_prompt_tokens : ℕ
  pub current_completion_tokens : ℕ
  pub current_cost_usd : ℕ

-- The defaults of the fields; a unit of cost is 0.0001 dollars.
abbrev pub default_tracker : JobBudgetTracker
default_tracker = record {
  max_model_invocations = 3;
  max_tool_calls = 5;
  max_tool_depth = 2;
  max_prompt_tokens = 8000;
  max_completion_tokens = 2000;
  max_cost_usd = 1000;
  current_model_invocations = 0;
  current_tool_calls = 0;
  current_tool_depth = 0;
  current_prompt_tokens = 0;
  current_completion_tokens = 0;
  current_cost_usd = 0;
}

unfoldable pub verify_budget : JobBudgetTracker → Result OrchestrationException (Unit {0})
verify_budget t = do
  raise_if (ltb t.max_model_invocations t.current_model_invocations) analysis_budget_exceeded
  raise_if (ltb t.max_tool_calls t.current_tool_calls) analysis_budget_exceeded
  raise_if (ltb t.max_prompt_tokens t.current_prompt_tokens) analysis_budget_exceeded
  raise_if (ltb t.max_completion_tokens t.current_completion_tokens) analysis_budget_exceeded
  raise_if (ltb t.max_cost_usd t.current_cost_usd) analysis_budget_exceeded

-- The two recorders change the tracker before the check, so the change stays when it raises.
unfoldable pub record_model_invocation :
    ℕ → ℕ → ℕ → JobBudgetTracker → JobBudgetTracker × Result OrchestrationException (Unit {0})
record_model_invocation prompt_tokens completion_tokens cost_usd t =
    let t' : JobBudgetTracker = record t {
      current_model_invocations = t.current_model_invocations + 1;
      current_prompt_tokens = t.current_prompt_tokens + prompt_tokens;
      current_completion_tokens = t.current_completion_tokens + completion_tokens;
      current_cost_usd = t.current_cost_usd + cost_usd;
    } in
    (t', verify_budget t')

unfoldable pub record_tool_call :
    JobBudgetTracker → JobBudgetTracker × Result OrchestrationException (Unit {0})
record_tool_call t =
    let t' : JobBudgetTracker = record t { current_tool_calls = t.current_tool_calls + 1 } in
    (t', verify_budget t')
