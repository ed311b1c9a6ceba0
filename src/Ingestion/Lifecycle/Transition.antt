-- ===== src/Ingestion/Lifecycle/Transition.antt =====
-- `class StateMachineService` of services/api/app/services/state_machine.py. The three methods have
-- one body, written once over the columns that they read and write; an event of the audit log is
-- its tenant, its target, the actor and the two statuses of its payload.
use finance_intelligence.Prelude.{
  Bool, List, Option, Result, [], decides, err, false, if◌then◌else◌, none, not, ok, some, true, ℕ,
  ◌&&◌, ◌++◌, ◌==◌, ◌||◌, ◌∷◌,
}
use finance_intelligence.Ingestion.Lifecycle.{
  SessionStatus-discrete, JobStatus, VersionStatus, VersionStatus-discrete, version_allows,
  job_allows, SessionStatus, JobStatus-discrete, session_allows,
}
use finance_intelligence.Orchestration.Store.{update_where, first_where}

-- The columns that a transition reads and writes; `at` is `finalized_at` of a session and
-- `completed_at` of a job, and a version has none.
pub record Entity {ℓ} (S : Type ℓ) : Type ℓ where
  pub id : ℕ
  pub organization_id : ℕ
  pub status : S
  pub at : Option ℕ

pub data TargetType : Type 0 where
  upload_session document_version ingestion_job : TargetType

pub record StateEvent {ℓ} (S : Type ℓ) : Type ℓ where
  pub organization_id : ℕ
  pub target_type : TargetType
  pub target_id : ℕ
  pub actor_id : Option ℕ
  pub from_state : S
  pub to_state : S

pub record Tables {ℓ} (S : Type ℓ) : Type ℓ where
  pub rows : List (Entity S)
  pub audit_log : List (StateEvent S)

pub data TransitionError : Type 0 where
  not_found invalid_transition : TransitionError

-- `WHERE id = … AND organization_id = …`.
unfoldable pub is_owned {ℓ} : {S : Type ℓ} → ℕ → ℕ → Entity S → Bool
is_owned id organization r = r.id == id && r.organization_id == organization

abbrev pub Outcome {ℓ} : Type ℓ → Type ℓ
Outcome S = Tables S × Result TransitionError (Entity S)

-- The assignments to the row.
unfoldable pub moved {ℓ} : {S : Type ℓ} → (S → Bool) → S → ℕ → Entity S → Entity S
moved stamps target now r = record r {
  status = target;
  at = if stamps target then some now else r.at;
}

unfoldable pub state_event {ℓ} : {S : Type ℓ} → TargetType → ℕ → ℕ → Option ℕ → S → S → StateEvent S
state_event target_type id organization actor current target = record {
  organization_id = organization;
  target_type = target_type;
  target_id = id;
  actor_id = actor;
  from_state = current;
  to_state = target;
}

module _ {ℓ} {S : Type ℓ} (same : S → S → Bool) (allows : S → S → Bool) (stamps : S → Bool)
    (target_type : TargetType) (id : ℕ) (expected target : S) (organization : ℕ) (actor : Option ℕ)
    (now : ℕ) where
  -- What is done with the row that the query returns.
  unfoldable pub transition_row : Tables S → Option (Entity S) → Outcome S
  unfolding moved state_event is_owned
  transition_row db none = (db, err not_found)
  transition_row db (some r) =
      if not (same r.status expected) || not (allows r.status target)
      then (db, err invalid_transition)
      else (
        record {
          rows = update_where (is_owned id organization) (moved stamps target now) db.rows;
          audit_log =
              db.audit_log ++ state_event target_type id organization actor r.status target ∷ [];
        },
        ok (moved stamps target now r),
      )

  unfoldable pub transition : Tables S → Outcome S
  unfolding transition_row
  transition db = transition_row db (first_where (is_owned id organization) db.rows)

-- `==` on the statuses.
unfoldable pub same_session : SessionStatus → SessionStatus → Bool
same_session a b = decides (SessionStatus-discrete a b)

unfoldable pub same_version : VersionStatus → VersionStatus → Bool
same_version a b = decides (VersionStatus-discrete a b)

unfoldable pub same_job : JobStatus → JobStatus → Bool
same_job a b = decides (JobStatus-discrete a b)

unfoldable pub is_finalized : SessionStatus → Bool
is_finalized SessionStatus.finalized = true
is_finalized _ = false

-- The statuses at which a job is stamped as completed: REJECTED and EXPIRED are not among them.
unfoldable pub is_completion : JobStatus → Bool
is_completion JobStatus.completed = true
is_completion JobStatus.completed_with_warnings = true
is_completion JobStatus.awaiting_review = true
is_completion JobStatus.failed = true
is_completion JobStatus.cancelled = true
is_completion _ = false

unfoldable pub transition_upload_session :
    ℕ
    → SessionStatus
    → SessionStatus
    → ℕ
    → Option ℕ
    → ℕ
    → Tables SessionStatus
    → Outcome SessionStatus
unfolding transition
transition_upload_session = transition same_session session_allows is_finalized upload_session

unfoldable pub transition_version :
    ℕ
    → VersionStatus
    → VersionStatus
    → ℕ
    → Option ℕ
    → ℕ
    → Tables VersionStatus
    → Outcome VersionStatus
unfolding transition
transition_version = transition same_version version_allows (λ s. false) document_version

unfoldable pub transition_job :
    ℕ → JobStatus → JobStatus → ℕ → Option ℕ → ℕ → Tables JobStatus → Outcome JobStatus
unfolding transition
transition_job = transition same_job job_allows is_completion ingestion_job
