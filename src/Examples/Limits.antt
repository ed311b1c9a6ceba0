-- ===== src/Examples/Limits.antt =====
-- services/api/app/orchestration/budget.py and policy_engine.py on the default limits.

use finance_intelligence.Prelude.{List, [], err, false, is_ok, refl, true, ◌∷◌, ◌≡◌}
use finance_intelligence.Orchestration.Exceptions.{policy_denied}
use finance_intelligence.Orchestration.PolicyEngine.{enforce_transmission_policy, confidential}
use finance_intelligence.Orchestration.Budget.Spending.{
  tool, charged, spend_all, Spend, spend, model, spend_all-eq-verify_budget,
}
use finance_intelligence.Orchestration.Budget.{
  record_tool_call, verify_budget, default_tracker, record_model_invocation,
}

abbrev one_turn : List Spend
one_turn = tool ∷ model 4000 500 300 ∷ model 4000 500 300 ∷ []

one_turn_fits : (spend_all one_turn default_tracker).1 ≡ true
unfolding spend_all spend record_model_invocation record_tool_call verify_budget
one_turn_fits = refl

sixth_tool_call :
    (spend_all (tool ∷ tool ∷ tool ∷ tool ∷ tool ∷ tool ∷ []) default_tracker).1 ≡ false
unfolding spend_all spend record_model_invocation record_tool_call verify_budget
sixth_tool_call = refl

spend_all-eq-verify_budget_example :
    ((spend_all one_turn default_tracker).1
      ≡ is_ok (verify_budget (charged one_turn default_tracker)))
    × ((spend_all one_turn default_tracker).0 ≡ charged one_turn default_tracker)
spend_all-eq-verify_budget_example =
    spend_all-eq-verify_budget one_turn default_tracker (unfold verify_budget in refl)

confidential_stays : enforce_transmission_policy confidential true ≡ err policy_denied
unfolding enforce_transmission_policy
confidential_stays = refl
