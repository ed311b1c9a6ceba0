-- ===== src/Orchestration/Budget/Spending.antt =====
-- What a tracker lets through over a sequence of recorded calls.
use finance_intelligence.Prelude.{
  ℕ, suc, ◌+◌, ◌≤◌, ◌≡◌, refl, Bool, true, false, List, [], ◌∷◌, Result, is_ok, if◌then◌else◌,
  arith,
}
use finance_intelligence.Orchestration.Exceptions.{OrchestrationException}
use finance_intelligence.Orchestration.Budget.{
  JobBudgetTracker, verify_budget, record_model_invocation, record_tool_call,
}

-- What the tracker counts is within every limit that the check reads.
pub record IsWithin (t : JobBudgetTracker) : Type 0 where
  pub invocations : t.current_model_invocations ≤ t.max_model_invocations
  pub tool_calls : t.current_tool_calls ≤ t.max_tool_calls
  pub prompt_tokens : t.current_prompt_tokens ≤ t.max_prompt_tokens
  pub completion_tokens : t.current_completion_tokens ≤ t.max_completion_tokens
  pub cost : t.current_cost_usd ≤ t.max_cost_usd

verify_budget-IsWithin : (t : JobBudgetTracker) → is_ok (verify_budget t) ≡ true → IsWithin t
unfolding verify_budget
verify_budget-IsWithin t h = ground arith

IsWithin-verify_budget : (t : JobBudgetTracker) → IsWithin t → is_ok (verify_budget t) ≡ true
unfolding verify_budget
IsWithin-verify_budget t h = ground arith

-- A recorded call: a model invocation with its tokens and cost, or a tool call.
pub data Spend : Type 0 where
  model : ℕ → ℕ → ℕ → Spend
  tool : Spend

unfoldable pub spend :
    Spend → JobBudgetTracker → JobBudgetTracker × Result OrchestrationException (Unit {0})
spend (model p c u) t = record_model_invocation p c u t
spend tool t = record_tool_call t

-- The tracker after all the calls, and whether none of them raised.
unfoldable pub spend_all : List Spend → JobBudgetTracker → JobBudgetTracker × Bool
spend_all [] t = (t, true)
spend_all (s ∷ ss) t =
    let (t', r) = spend s t in
    let (t'', fine) = spend_all ss t' in (t'', if is_ok r then fine else false)

-- What the calls ask for in all.
abbrev pub invocations_in : List Spend → ℕ
invocations_in [] = 0
invocations_in (model p c u ∷ ss) = suc (invocations_in ss)
invocations_in (tool ∷ ss) = invocations_in ss

abbrev pub tools_in : List Spend → ℕ
tools_in [] = 0
tools_in (model p c u ∷ ss) = tools_in ss
tools_in (tool ∷ ss) = suc (tools_in ss)

abbrev pub prompt_in : List Spend → ℕ
prompt_in [] = 0
prompt_in (model p c u ∷ ss) = p + prompt_in ss
prompt_in (tool ∷ ss) = prompt_in ss

abbrev pub completion_in : List Spend → ℕ
completion_in [] = 0
completion_in (model p c u ∷ ss) = c + completion_in ss
completion_in (tool ∷ ss) = completion_in ss

abbrev pub cost_in : List Spend → ℕ
cost_in [] = 0
cost_in (model p c u ∷ ss) = u + cost_in ss
cost_in (tool ∷ ss) = cost_in ss

-- The tracker with the totals of all the calls added at once.
abbrev pub charged : List Spend → JobBudgetTracker → JobBudgetTracker
charged ss t = record t {
  current_model_invocations = t.current_model_invocations + invocations_in ss;
  current_tool_calls = t.current_tool_calls + tools_in ss;
  current_prompt_tokens = t.current_prompt_tokens + prompt_in ss;
  current_completion_tokens = t.current_completion_tokens + completion_in ss;
  current_cost_usd = t.current_cost_usd + cost_in ss;
}

spend_all-charged : (ss : List Spend) (t : JobBudgetTracker) → (spend_all ss t).0 ≡ charged ss t
unfolding spend_all spend record_model_invocation record_tool_call
spend_all-charged [] t = ground arith
spend_all-charged (model p c u ∷ ss) t =
    ground (arith, spend_all-charged ss (record_model_invocation p c u t).0)
spend_all-charged (tool ∷ ss) t = ground (arith, spend_all-charged ss (record_tool_call t).0)

-- Spending only adds, so a tracker that is within its limits at the end was so before.
within_before :
    (ss : List Spend) (t : JobBudgetTracker)
    → is_ok (verify_budget (charged ss t)) ≡ true
    → is_ok (verify_budget t) ≡ true
within_before ss t h =
    let after : IsWithin (charged ss t) = verify_budget-IsWithin (charged ss t) h in
    IsWithin-verify_budget t (omega arith)

charged-spend :
    (s : Spend) (ss : List Spend) (t : JobBudgetTracker)
    → charged ss (spend s t).0 ≡ charged (s ∷ ss) t
unfolding spend record_model_invocation record_tool_call
charged-spend (model p c u) ss t = ground arith
charged-spend tool ss t = ground arith

spend-eq-verify_budget :
    (s : Spend) (t : JobBudgetTracker) → (spend s t).1 ≡ verify_budget (spend s t).0
unfolding spend record_model_invocation record_tool_call
spend-eq-verify_budget (model p c u) t = refl
spend-eq-verify_budget tool t = refl

-- From a tracker that passes its check, a sequence of calls goes through without an exception
-- exactly when its totals, charged all at once, pass the check: the order of the calls does not
-- matter, and a limit that is passed once is never forgotten.
pub spend_all-eq-verify_budget :
    (ss : List Spend) (t : JobBudgetTracker)
    → is_ok (verify_budget t) ≡ true
    → ((spend_all ss t).1 ≡ is_ok (verify_budget (charged ss t)))
      × ((spend_all ss t).0 ≡ charged ss t)
unfolding spend_all
spend_all-eq-verify_budget [] t h = (ground arith, ground arith)
spend_all-eq-verify_budget (s ∷ ss) t h =
    let t' = (spend s t).0 in
    (
      ground (
        arith,
        spend-eq-verify_budget s t,
        charged-spend s ss t,
        within_before ss t',
        spend_all-eq-verify_budget ss t',
      ),
      spend_all-charged (s ∷ ss) t,
    )
