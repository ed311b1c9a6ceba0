-- ===== src/Orchestration/Claims.antt =====
-- The functions in services/api/alembic/versions/031_analysis_job_claim_authority.py by which a
-- worker takes a job, takes over an abandoned one and renews its lease. Each is one statement block
-- run in one transaction; `now` is the time of the transaction and `token` the fresh random token.
-- Rows that another transaction has locked are skipped: they are not among the rows given.
pub mod Fencing
pub mod Queue
pub mod Recovery
pub mod Takeover
use Prim.Native.String
use finance_intelligence.Prelude.{
  ℕ, ◌+◌, ◌*◌, String, Bool, true, false, not, ◌&&◌, ◌||◌, Option, none, some, List, [], ◌∷◌, all,
  any, length, Result, ok, err, select, ltb, leb, ◌==◌, if◌then◌else◌,
}
use finance_intelligence.Prelude.Ascii.{codes}
use finance_intelligence.Orchestration.StateMachine.{
  AnalysisJobStatus, received, understanding_request, planning, policy_check,
  retrieving_internal_sources, validating_sources,
}
use finance_intelligence.Orchestration.Store.{
  AnalysisJob, AnalysisAttempt, AttemptStatus, running, abandoned, is_null, is_number, is_text,
  update_where, minimum, has_id, is_active, is_held_by,
}

pub record ClaimTables : Type 0 where
  pub jobs : List AnalysisJob
  pub attempts : List AnalysisAttempt

-- `CRITICAL_SECURITY_VIOLATION`.
pub data ClaimError : Type 0 where
  invalid_worker_id : ClaimError

-- `class ClaimedAnalysisJob` of services/worker/app/analysis_worker.py: the row that is returned.
pub record ClaimedAnalysisJob : Type 0 where
  pub job_id : ℕ
  pub organization_id : ℕ
  pub claim_token : ℕ

-- Blank, too long, or with a control character.
unfoldable pub is_unsafe_worker_id : String → Bool
is_unsafe_worker_id worker =
    let cs = codes worker in
    all (λ c. c == 32) cs || ltb 100 (length cs) || any (λ c. ltb c 32 || c == 127) cs

-- `INTERVAL '15 minutes'`, in seconds.
abbrev pub lease_seconds : ℕ
lease_seconds = 15 * 60

unfoldable pub is_received : AnalysisJobStatus → Bool
is_received received = true
is_received _ = false

-- The rows that `claim_next_analysis_job` selects from.
unfoldable pub is_fresh : AnalysisJob → Bool
unfolding is_received
is_fresh j =
    is_received j.status
    && is_null j.claim_token
    && is_null j.locked_by
    && is_null j.lease_expires_at

-- The statuses before the tools run, from which a job may be recovered.
unfoldable pub is_recoverable_status : AnalysisJobStatus → Bool
is_recoverable_status received = true
is_recoverable_status understanding_request = true
is_recoverable_status planning = true
is_recoverable_status policy_check = true
is_recoverable_status retrieving_internal_sources = true
is_recoverable_status validating_sources = true
is_recoverable_status _ = false

-- `lease_expires_at < now()`, which is not true of NULL.
abbrev pub is_before : Option ℕ → ℕ → Bool
is_before none now = false
is_before (some t) now = ltb t now

-- The rows that `recover_next_stale_analysis_job` selects from.
unfoldable pub is_stale : ℕ → AnalysisJob → Bool
unfolding is_recoverable_status
is_stale now j =
    is_recoverable_status j.status
    && not (is_null j.claim_token)
    && is_before j.lease_expires_at now
    && j.recovery_count == 0

-- `ORDER BY created_at ASC, id ASC`.
unfoldable pub is_older : AnalysisJob → AnalysisJob → Bool
is_older a b = ltb a.created_at b.created_at || a.created_at == b.created_at && ltb a.id b.id

-- `ORDER BY lease_expires_at ASC, created_at ASC, id ASC`; NULLs come last.
unfoldable pub lapsed_before : AnalysisJob → AnalysisJob → Bool
unfolding is_older
lapsed_before a b = by_lease a.lease_expires_at b.lease_expires_at
  where
    by_lease : Option ℕ → Option ℕ → Bool
    by_lease (some s) (some t) = ltb s t || s == t && is_older a b
    by_lease (some s) none = true
    by_lease none (some t) = false
    by_lease none none = is_older a b

-- The columns that both takings write.
unfoldable pub taken : String → ℕ → ℕ → AnalysisJob → AnalysisJob
taken worker token now j = record j {
  status = received;
  locked_by = some worker;
  claim_token = some token;
  locked_at = some now;
  lease_expires_at = some (now + lease_seconds);
  updated_at = now;
}

abbrev claimed : ℕ → AnalysisJob → ClaimedAnalysisJob
claimed token j = record { job_id = j.id; organization_id = j.organization_id; claim_token = token }

abbrev pub Claim : Type 0
Claim = ClaimTables × Result ClaimError (Option ClaimedAnalysisJob)

claim_row : String → ℕ → ℕ → ClaimTables → Option AnalysisJob → Claim
unfolding taken
claim_row worker token now db none = (db, ok none)
claim_row worker token now db (some j) = (
  record db { jobs = update_where (has_id j.id) (taken worker token now) db.jobs },
  ok (some (claimed token j)),
)

unfoldable pub claim_next_analysis_job : String → ℕ → ℕ → ClaimTables → Claim
unfolding claim_row
claim_next_analysis_job worker token now db =
    if is_unsafe_worker_id worker
    then (db, err invalid_worker_id)
    else claim_row worker token now db (minimum is_older (select is_fresh db.jobs))

abbrev is_running : AttemptStatus → Bool
is_running running = true
is_running _ = false

unfoldable pub recovered : String → ℕ → ℕ → AnalysisJob → AnalysisJob
unfolding taken
recovered worker token now j = record (taken worker token now j) {
  recovery_count = j.recovery_count + 1;
}

recover_row : String → ℕ → ℕ → ClaimTables → Option AnalysisJob → Claim
unfolding recovered
recover_row worker token now db none = (db, ok none)
recover_row worker token now db (some j) = (
  record {
    jobs = update_where (has_id j.id) (recovered worker token now) db.jobs;
    attempts =
        update_where (λ a. a.analysis_job_id == j.id && is_running a.status)
          (λ a. record a { status = abandoned }) db.attempts;
  },
  ok (some (claimed token j)),
)

unfoldable pub recover_next_stale_analysis_job : String → ℕ → ℕ → ClaimTables → Claim
unfolding recover_row
recover_next_stale_analysis_job worker token now db =
    if is_unsafe_worker_id worker
    then (db, err invalid_worker_id)
    else recover_row worker token now db (minimum lapsed_before (select (is_stale now) db.jobs))

-- `WHERE` of the renewal: the holder of the job, while the job is under way.
unfoldable pub is_renewable : ℕ → ℕ → String → AnalysisJob → Bool
unfolding is_held_by is_active
is_renewable job_id token worker j = is_held_by job_id token worker j && is_active j.status

unfoldable pub renew_analysis_job_lease : ℕ → ℕ → String → ℕ → ClaimTables → ClaimTables × Bool
unfolding is_renewable
renew_analysis_job_lease job_id token worker now db =
    if is_unsafe_worker_id worker then (db, false) else (
      record db {
        jobs =
            update_where (is_renewable job_id token worker)
              (λ j. record j { lease_expires_at = some (now + lease_seconds); updated_at = now })
              db.jobs;
      },
      any (is_renewable job_id token worker) db.jobs,
    )
