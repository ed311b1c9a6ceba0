-- ===== src/Orchestration/PolicyEngine.antt =====
-- services/api/app/orchestration/policy_engine.py: may a text of this classification be sent to a
-- model? The classification is of the enumeration's type here, so the last `return` and the
-- `except` of the source, which answer DENY to anything else, are not reached.
use finance_intelligence.Prelude.{◌≡◌, Bool, true, false, Result, ok, err, if◌then◌else◌, arith}
use finance_intelligence.Orchestration.Exceptions.{OrchestrationException, policy_denied}

pub data DataClassification : Type 0 where
  public internal confidential strictly_confidential personal_data : DataClassification

pub data PolicyDecision : Type 0 where
  allow deny require_masking require_human_approval internal_only : PolicyDecision

-- The alias of the provider is not read.
unfoldable pub evaluate_model_transmission : DataClassification → Bool → PolicyDecision
evaluate_model_transmission strictly_confidential is_external_provider = deny
evaluate_model_transmission personal_data is_external_provider = require_masking
evaluate_model_transmission confidential is_external_provider =
    if is_external_provider then deny else allow
evaluate_model_transmission internal is_external_provider = allow
evaluate_model_transmission public is_external_provider = allow

enforce : PolicyDecision → Result OrchestrationException (Unit {0})
enforce allow = ok tt
enforce require_masking = ok tt
enforce _ = err policy_denied

unfoldable pub enforce_transmission_policy :
    DataClassification → Bool → Result OrchestrationException (Unit {0})
unfolding evaluate_model_transmission enforce
enforce_transmission_policy classification is_external_provider =
    enforce (evaluate_model_transmission classification is_external_provider)

-- How far a classification is from being public.
unfoldable pub at_most_as_sensitive : DataClassification → DataClassification → Bool
at_most_as_sensitive public _ = true
at_most_as_sensitive internal public = false
at_most_as_sensitive internal _ = true
at_most_as_sensitive confidential confidential = true
at_most_as_sensitive confidential strictly_confidential = true
at_most_as_sensitive strictly_confidential strictly_confidential = true
at_most_as_sensitive personal_data personal_data = true
at_most_as_sensitive _ _ = false

-- Enforcement is monotone: what may be sent in one class may be sent to the same provider, and to an
-- internal one, in any class that is no more sensitive.
pub enforce_monotone :
    (a b : DataClassification) (external : Bool)
    → at_most_as_sensitive a b ≡ true
    → enforce_transmission_policy b external ≡ ok tt
    → (enforce_transmission_policy a external ≡ ok tt)
      × (enforce_transmission_policy a false ≡ ok tt)
unfolding enforce_transmission_policy at_most_as_sensitive
enforce_monotone a b external h e = (ground arith, ground arith)
