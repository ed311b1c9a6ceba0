-- ===== src/Orchestration/Engine.antt =====
-- services/api/app/orchestration/engine.py: one run of the engine on a claimed job. This file has
-- the session, the actions on it, and what the engine calls.
--
-- A session is the rows as of the last commit, and the rows as this transaction sees them, which are
-- those of its tenant. A method is an action on the session that returns or raises; what was written
-- before it raised stays in the transaction until a rollback. The locked row of the job is changed
-- by others only where the transaction is given up in between, so what they do belongs to the action
-- of a tool, which may commit. `set_config` of the tenant is left out.
pub mod Plan
pub mod Run
pub mod Execute
pub mod Ends
pub mod Rows
pub mod Steps
pub mod Phases
pub mod Tools
pub mod Asking
pub mod Outcomes
pub mod Settled
pub mod Published
pub mod Denied
pub mod Fenced
pub mod Taken
use finance_intelligence.Prelude.{
  ℕ, String, Bool, true, false, Option, none, some, List, [], ◌∷◌, ◌++◌, Result, ok, err, ◌&&◌, any,
  ◌==◌,
}
use finance_intelligence.Prelude.Ascii.{codes}
use finance_intelligence.Audit.{Fields, end, Value, number}
use finance_intelligence.Orchestration.Exceptions.{OrchestrationException, claim_ownership_lost}
use finance_intelligence.Orchestration.StateMachine.{AnalysisJobStatus, validate_transition}
use finance_intelligence.Orchestration.CircuitBreaker.{
  ProviderCircuitBreaker, ModelProviderUnavailable, check_allow_execution,
}
use finance_intelligence.Orchestration.EventEngine.{emit_event, EventError}
use finance_intelligence.Orchestration.PolicyEngine.{DataClassification, PolicyDecision}
use finance_intelligence.Orchestration.Store.{
  AnalysisJob, AnalysisAttempt, AttemptStatus, has_id, update_where, first_where, is_number,
  is_text,
}
use finance_intelligence.Orchestration.Claims.{is_renewable}
use finance_intelligence.Orchestration.Clarification.{
  ClarificationTables, ClarificationError, Platform,
}
use finance_intelligence.Orchestration.ToolDedup.{ToolInvocation}

-- `class PolicyDecisionRecord`, `class QualityGateResultRecord` and `class FinalResultSnapshot` of
-- models/orchestration.py, without the constant columns.
pub record PolicyDecisionRecord : Type 0 where
  pub analysis_job_id : ℕ
  pub organization_id : ℕ
  pub decision : PolicyDecision
  pub classification : DataClassification
  pub created_at : ℕ

pub record QualityGateResultRecord : Type 0 where
  pub analysis_job_id : ℕ
  pub organization_id : ℕ
  pub gate_code : List ℕ
  pub status : List ℕ
  pub reason_code : List ℕ

pub record FinalResultSnapshot : Type 0 where
  pub analysis_job_id : ℕ
  pub organization_id : ℕ
  pub narrative : List ℕ
  pub result_dataset_id : List ℕ
  pub created_at : ℕ

pub record EngineTables : Type 0 where
  pub rows : ClarificationTables
  pub policy_decisions : List PolicyDecisionRecord
  pub tool_invocations : List ToolInvocation
  pub gate_results : List QualityGateResultRecord
  pub snapshots : List FinalResultSnapshot

-- What may be raised during a run; `other` is any exception of the collaborators, by a number.
pub data EngineException : Type 0 where
  orchestration : OrchestrationException → EngineException
  unavailable : ModelProviderUnavailable → EngineException
  clarification : ClarificationError → EngineException
  event : EventError → EngineException
  other : ℕ → EngineException

-- `except ClaimOwnershipLostException`.
unfoldable pub is_lost : EngineException → Bool
is_lost (orchestration claim_ownership_lost) = true
is_lost _ = false

-- `job_status` is the attribute of the object that was loaded; a commit does not reload it.
pub record Session : Type 0 where
  pub committed : EngineTables
  pub current : EngineTables
  pub breaker : ProviderCircuitBreaker
  pub job_status : AnalysisJobStatus

abbrev pub Outcome : Type 0 → Type 0
Outcome A = Session × Result EngineException A

abbrev pub Action : Type 0 → Type 0
Action A = Session → Outcome A

module _ {A B : Type 0} where
  abbrev pub and_then : Outcome A → (A → Action B) → Outcome B
  and_then (s, ok a) f = f a s
  and_then (s, err e) f = (s, err e)

  infixl 5 ◌>>=◌
  abbrev pub ◌>>=◌ : Action A → (A → Action B) → Action B
  ◌>>=◌ m f s = and_then (m s) f

infixl 5 ◌>>◌
abbrev pub ◌>>◌ : {B : Type 0} → Action (Unit {0}) → Action B → Action B
m >> k = m >>= λ _. k

module _ {A : Type 0} where
  abbrev pub pure : A → Action A
  pure a s = (s, ok a)

  abbrev pub raise : EngineException → Action A
  raise e s = (s, err e)

  abbrev pub gets : (Session → A) → Action A
  gets f s = (s, ok (f s))

  -- A call that reads or computes, and may raise.
  abbrev pub lift : Result EngineException A → Action A
  lift (ok a) s = (s, ok a)
  lift (err e) s = (s, err e)

-- `db.add`, `db.flush` and the updates of the transaction.
abbrev pub modify : (EngineTables → EngineTables) → Action (Unit {0})
modify f s = (record s { current = f s.current }, ok tt)

unfoldable pub commit : Action (Unit {0})
commit s = (record s { committed = s.current }, ok tt)

unfoldable pub rollback : Action (Unit {0})
rollback s = (record s { current = s.committed }, ok tt)

abbrev pub modify_rows : (ClarificationTables → ClarificationTables) → Action (Unit {0})
modify_rows f = modify (λ t. record t { rows = f t.rows })

-- Assignments to the row of the job.
unfoldable pub write_job : ℕ → (AnalysisJob → AnalysisJob) → Action (Unit {0})
write_job id f = modify_rows (λ db. record db { jobs = update_where (has_id id) f db.jobs })

abbrev has_attempt_id : ℕ → AnalysisAttempt → Bool
has_attempt_id id a = a.id == id

unfoldable pub write_attempt : ℕ → AttemptStatus → Action (Unit {0})
write_attempt id status = modify_rows (λ db. record db {
  attempts = update_where (has_attempt_id id) (λ a. record a { status = status }) db.attempts;
})

-- `db.get(AnalysisAttempt, id)`.
unfoldable pub get_attempt : ℕ → Action (Option AnalysisAttempt)
get_attempt id = gets (λ s. first_where (has_attempt_id id) s.current.rows.attempts)

abbrev pub lost : EngineException
lost = orchestration claim_ownership_lost

unfoldable pub raise_unless : Bool → EngineException → Action (Unit {0})
raise_unless true e = pure tt
raise_unless false e = raise e

-- `_assert_fenced_ownership`.
unfoldable pub assert_fenced_ownership : ℕ → ℕ → String → Action (Unit {0})
unfolding raise_unless
assert_fenced_ownership job token worker s =
    raise_unless (any (is_renewable job token worker) s.current.rows.jobs) lost s

-- `AnalysisStateMachine.validate_transition(AnalysisJobStatus(job.status), …)`.
unfoldable pub check_move : AnalysisJobStatus → Action (Unit {0})
check_move new_status s = elim (validate_transition s.job_status new_status) [
  | ok u ↦ (s, ok tt)
  | err e ↦ (s, err (orchestration e))
]

-- `job.status = …`, flushed.
unfoldable pub set_status : ℕ → AnalysisJobStatus → Action (Unit {0})
unfolding write_job
set_status id status = write_job id (λ j. record j { status = status }) >> λ s.
    (record s { job_status = status }, ok tt)

-- `self.circuit_breaker.check_allow_execution()`; the breaker is in the process, not in the session.
unfoldable pub check_breaker : ℕ → Action (Unit {0})
check_breaker now s =
    let (b, r) = check_allow_execution now s.breaker in
    elim r [
      | ok u ↦ (record s { breaker = b }, ok tt)
      | err e ↦ (record s { breaker = b }, err (unavailable e))
    ]
