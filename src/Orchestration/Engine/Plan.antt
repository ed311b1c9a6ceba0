-- ===== src/Orchestration/Engine/Plan.antt =====
-- What one run of services/api/app/orchestration/engine.py is given: its arguments, what it calls,
-- and the plan and the dataset that it reads out of what those return. The request's normalisation,
-- the tools, the provider and the quality gates are parameters, and so are identifiers and times.
use finance_intelligence.Prelude.{
  ℕ, String, Bool, true, false, Option, none, some, List, [], ◌∷◌, Result, ok, err, not, is_empty,
  if◌then◌else◌, ◌==◌,
}
use finance_intelligence.Prelude.Ascii.{codes}
use finance_intelligence.Audit.{
  Fields, end, field, Value, number, text, dict, items, Items, nil, item, get_key, null, flag, uuid,
}
use finance_intelligence.Orchestration.Exceptions.{dataset_not_found}
use finance_intelligence.Orchestration.PolicyEngine.{DataClassification, PolicyDecision}
use finance_intelligence.Orchestration.Clarification.{Platform}
use finance_intelligence.Orchestration.Clarification.Service.{text_field}
use finance_intelligence.Orchestration.Engine.{
  EngineTables, EngineException, orchestration, other, Action,
}

-- `NormalizationOutcome` of request_normalizer.py; of the normalised request the measures are read.
pub record NormalizationOutcome : Type 0 where
  pub needs_clarification : Bool
  pub requested_semantic_measures : Option (List (List ℕ))
  pub matched_institution_ids : List (List ℕ)
  pub matched_period_ids : List (List ℕ)
  pub clarification_code : Option (List ℕ)
  pub clarification_prompt_key : Option (List ℕ)
  pub clarification_question : Option (List ℕ)
  pub allowed_response_schema : Option Fields

-- `class PlanStep` of schemas.py.
pub record PlanStep : Type 0 where
  pub step_number : ℕ
  pub tool_name : List ℕ
  pub tool_arguments : Fields

-- `plan.model_dump(mode="json")` of a plan of one step.
unfoldable pub plan_json : List ℕ → PlanStep → Fields
plan_json job step = text_field "plan_version" (codes "1.0.0") (
    text_field "analysis_job_id" job (
      field (codes "ordered_steps")
        (items (
          item
            (dict (
              field (codes "step_number") (number step.step_number) (
                text_field "tool_name" step.tool_name
                  (field (codes "tool_arguments") (dict step.tool_arguments) end))))
            nil))
        (field (codes "max_tool_steps") (number 5)
          (text_field "estimated_max_cost_usd" (codes "0.0500") end))))

-- A result of the quality gates: its code, its status and its reason.
pub record GateResult : Type 0 where
  pub gate_code : List ℕ
  pub status : List ℕ
  pub reason_code : List ℕ

-- What the engine calls. A tool acts on the session, which it may commit.
pub record Collaborators : Type 0 where
  pub platform : Platform
  pub text_of_time : ℕ → List ℕ
  pub text_of_value : Value → List ℕ
  pub normalize_request : EngineTables → Result EngineException NormalizationOutcome
  pub run_tool : PlanStep → Action Fields
  pub exec_ms : ℕ
  pub invoke_model : PlanStep → List Fields → Result EngineException (List ℕ)
  pub run_all_gates : List ℕ → Fields → Result EngineException (List GateResult)
  pub error_code : EngineException → List ℕ
  pub error_message : EngineException → List ℕ

-- The arguments of the call, the tenant of the context, and the identifiers and times of the run.
pub record Execution : Type 0 where
  pub organization_id : ℕ
  pub job_id : ℕ
  pub claim_token : ℕ
  pub worker_id : String
  pub request_classification : DataClassification
  pub attempt_id : ℕ
  pub clarification_id : ℕ
  pub plan_id : ℕ
  pub snapshot_id : ℕ
  pub now : ℕ
  pub clock : ℕ
  pub invoked_at : ℕ
  pub now_completed : ℕ
  pub now_failed : ℕ

unfoldable pub is_deny : PolicyDecision → Bool
is_deny PolicyDecision.deny = true
is_deny _ = false

-- `value or default`.
abbrev pub or_text : Option (List ℕ) → String → List ℕ
or_text none default = codes default
or_text (some []) default = codes default
or_text (some (c ∷ cs)) default = c ∷ cs

abbrev pub or_default : List (List ℕ) → String → List (List ℕ)
or_default [] default = codes default ∷ []
or_default (x ∷ xs) default = x ∷ xs

abbrev pub or_fields : Option Fields → Fields
or_fields none = end
or_fields (some fs) = fs

-- `norm_outcome.normalized_request or …`, and then its measures, or the one of the default.
abbrev pub measures_of : Option (List (List ℕ)) → List (List ℕ)
measures_of none = codes "TOTAL_ASSETS" ∷ []
measures_of (some measures) = or_default measures "TOTAL_ASSETS"

abbrev pub texts : List (List ℕ) → Items
texts [] = nil
texts (t ∷ ts) = item (text t) (texts ts)

abbrev pub measure_items : List (List ℕ) → Items
measure_items [] = nil
measure_items (m ∷ ms) = item (dict (text_field "semantic_measure_code" m end)) (measure_items ms)

unfoldable pub is_truthy : Value → Bool
is_truthy null = false
is_truthy (flag b) = b
is_truthy (number n) = not (n == 0)
is_truthy (text s) = not (is_empty s)
is_truthy (uuid n) = true
is_truthy (dict end) = false
is_truthy (dict (field k v fs)) = true
is_truthy (items nil) = false
is_truthy (items (item v vs)) = true

-- An `AttributeError` of the language.
abbrev pub attribute_error : EngineException
attribute_error = other 0

-- `(value or {}).get("result_dataset_id")`.
unfoldable pub id_in : Option Value → Result EngineException (Option Value)
id_in none = ok none
id_in (some (dict fs)) = ok (get_key (codes "result_dataset_id") fs)
id_in (some v) = if is_truthy v then err attribute_error else ok none

abbrev pub present : Option Value → Result EngineException Value
present none = err (orchestration dataset_not_found)
present (some v) = if is_truthy v then ok v else err (orchestration dataset_not_found)

-- The identifier of the dataset in the output of the first tool.
unfoldable pub dataset_id : List Fields → Result EngineException Value
unfolding id_in is_truthy
dataset_id [] = err (orchestration dataset_not_found)
dataset_id (output ∷ outputs) = elim (id_in (get_key (codes "result_dataset") output)) [
  | ok v ↦ present v
  | err e ↦ err e
]
