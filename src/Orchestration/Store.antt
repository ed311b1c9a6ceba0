-- ===== src/Orchestration/Store.antt =====
-- The tables of the analysis plane that more than one part of the program reads and writes
-- (services/api/app/models/orchestration.py), as lists of rows in the order of insertion.
-- Identifiers, tokens and times are numbers; a worker's name is a text. Columns that nothing of the
-- model reads are left out: the prompt and the normalised request of a job.
pub mod Rows
pub mod Counting
use finance_intelligence.Prelude.{
  ℕ, String, Bool, true, false, ◌&&◌, Option, none, some, List, [], ◌∷◌, str_eq, ◌==◌,
  if◌then◌else◌,
}
use finance_intelligence.Orchestration.StateMachine.{AnalysisJobStatus}

pub record AnalysisJob : Type 0 where
  pub id : ℕ
  pub organization_id : ℕ
  pub user_id : ℕ
  pub status : AnalysisJobStatus
  pub locked_by : Option String
  pub locked_at : Option ℕ
  pub lease_expires_at : Option ℕ
  pub claim_token : Option ℕ
  pub recovery_count : ℕ
  pub created_at : ℕ
  pub updated_at : ℕ

-- The texts that the program writes to `status` of an attempt.
pub data AttemptStatus : Type 0 where
  in_progress running abandoned completed failed rejected_by_policy needs_clarification :
      AttemptStatus

pub record AnalysisAttempt : Type 0 where
  pub id : ℕ
  pub analysis_job_id : ℕ
  pub organization_id : ℕ
  pub attempt_number : ℕ
  pub status : AttemptStatus

-- `column = value` in SQL: false where the column is NULL.
abbrev pub is_number : Option ℕ → ℕ → Bool
is_number none n = false
is_number (some m) n = m == n

abbrev pub is_text : Option String → String → Bool
is_text none s = false
is_text (some r) s = str_eq r s

abbrev pub is_null {ℓ} : {A : Type ℓ} → Option A → Bool
is_null none = true
is_null (some a) = false

-- `UPDATE … WHERE test`.
module _ {ℓ} {A : Type ℓ} where
  abbrev pub update_where : (A → Bool) → (A → A) → List A → List A
  update_where test f [] = []
  update_where test f (x ∷ xs) = (if test x then f x else x) ∷ update_where test f xs

  -- `SELECT … WHERE test LIMIT 1`, and a lookup by primary key.
  abbrev pub first_where : (A → Bool) → List A → Option A
  first_where test [] = none
  first_where test (x ∷ xs) = let rest = first_where test xs in if test x then some x else rest

  -- `ORDER BY … LIMIT 1` over the rows that are given: the first that no later one comes before.
  abbrev pub choose : (A → A → Bool) → A → Option A → A
  choose before x none = x
  choose before x (some y) = if before y x then y else x

  abbrev pub minimum : (A → A → Bool) → List A → Option A
  minimum before [] = none
  minimum before (x ∷ xs) = some (choose before x (minimum before xs))

-- `WHERE id = …` of `analysis_jobs`.
abbrev pub has_id : ℕ → AnalysisJob → Bool
has_id job_id j = j.id == job_id

-- The statuses in which a worker may hold a job.
unfoldable pub is_active : AnalysisJobStatus → Bool
is_active AnalysisJobStatus.received = true
is_active AnalysisJobStatus.understanding_request = true
is_active AnalysisJobStatus.planning = true
is_active AnalysisJobStatus.policy_check = true
is_active AnalysisJobStatus.retrieving_internal_sources = true
is_active AnalysisJobStatus.validating_sources = true
is_active AnalysisJobStatus.executing_tools = true
is_active AnalysisJobStatus.reconciling_results = true
is_active AnalysisJobStatus.generating_structured_result = true
is_active AnalysisJobStatus.quality_gate = true
is_active _ = false

-- The row that `_assert_fenced_ownership` of engine.py selects, and that a fenced update of
-- engine.py writes to: the job, its token, its holder, and for the former an active status.
unfoldable pub is_held_by : ℕ → ℕ → String → AnalysisJob → Bool
is_held_by job_id token worker j =
    j.id == job_id && is_number j.claim_token token && is_text j.locked_by worker
