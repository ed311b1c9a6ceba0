-- ===== src/Ingestion/Lifecycle.antt =====
-- services/api/app/services/state_machine.py: the statuses of an upload session, of a document
-- version and of an ingestion job, and the service that changes them. The database is one list of
-- rows for each table, in the order of insertion, and the audit events that were recorded; `now` is
-- the clock. A status that no table names is not a value of the model: its row of the table is
-- empty in the source.
pub mod Audit
pub mod Race
pub mod Transition
use finance_intelligence.Prelude.{Bool, false, true}

-- The keys of `SESSION_TRANSITIONS`.
pub data SessionStatus : Type 0 where
  pending_upload uploaded finalized expired failed : SessionStatus

-- The keys of `VERSION_TRANSITIONS`.
pub data VersionStatus : Type 0 where
  pending_upload queued parsing extracted completed completed_with_warnings awaiting_review rejected
        failed :
      VersionStatus

-- The keys of `JOB_TRANSITIONS`.
pub data JobStatus : Type 0 where
  pending_upload uploaded validating validated queued parsing extracted failed cancelled expired
        completed completed_with_warnings awaiting_review rejected :
      JobStatus

unfoldable pub SessionStatus-discrete : Discrete SessionStatus
SessionStatus-discrete = hlevel

unfoldable pub VersionStatus-discrete : Discrete VersionStatus
VersionStatus-discrete = hlevel

unfoldable pub JobStatus-discrete : Discrete JobStatus
JobStatus-discrete = hlevel

-- `target in SESSION_TRANSITIONS.get(current, set())`, the current status first.
unfoldable pub session_allows : SessionStatus → SessionStatus → Bool
session_allows SessionStatus.pending_upload SessionStatus.uploaded = true
session_allows SessionStatus.pending_upload SessionStatus.failed = true
session_allows SessionStatus.pending_upload SessionStatus.expired = true
session_allows SessionStatus.uploaded SessionStatus.finalized = true
session_allows SessionStatus.uploaded SessionStatus.failed = true
session_allows SessionStatus.uploaded SessionStatus.expired = true
session_allows _ _ = false

-- The statuses in which extraction may end.
unfoldable pub is_extraction_end : VersionStatus → Bool
is_extraction_end VersionStatus.completed = true
is_extraction_end VersionStatus.completed_with_warnings = true
is_extraction_end VersionStatus.awaiting_review = true
is_extraction_end VersionStatus.rejected = true
is_extraction_end VersionStatus.failed = true
is_extraction_end _ = false

unfoldable pub version_allows : VersionStatus → VersionStatus → Bool
unfolding is_extraction_end
version_allows VersionStatus.pending_upload VersionStatus.queued = true
version_allows VersionStatus.pending_upload VersionStatus.failed = true
version_allows VersionStatus.queued VersionStatus.parsing = true
version_allows VersionStatus.queued VersionStatus.failed = true
version_allows VersionStatus.parsing VersionStatus.extracted = true
version_allows VersionStatus.parsing VersionStatus.queued = true
version_allows VersionStatus.parsing t = is_extraction_end t
version_allows VersionStatus.extracted t = is_extraction_end t
version_allows _ _ = false

unfoldable pub is_job_extraction_end : JobStatus → Bool
is_job_extraction_end JobStatus.completed = true
is_job_extraction_end JobStatus.completed_with_warnings = true
is_job_extraction_end JobStatus.awaiting_review = true
is_job_extraction_end JobStatus.rejected = true
is_job_extraction_end JobStatus.failed = true
is_job_extraction_end _ = false

unfoldable pub job_allows : JobStatus → JobStatus → Bool
unfolding is_job_extraction_end
job_allows JobStatus.pending_upload JobStatus.uploaded = true
job_allows JobStatus.pending_upload JobStatus.failed = true
job_allows JobStatus.pending_upload JobStatus.expired = true
job_allows JobStatus.uploaded JobStatus.validating = true
job_allows JobStatus.uploaded JobStatus.queued = true
job_allows JobStatus.uploaded JobStatus.failed = true
job_allows JobStatus.uploaded JobStatus.cancelled = true
job_allows JobStatus.validating JobStatus.validated = true
job_allows JobStatus.validating JobStatus.rejected = true
job_allows JobStatus.validating JobStatus.failed = true
job_allows JobStatus.validated JobStatus.queued = true
job_allows JobStatus.validated JobStatus.failed = true
job_allows JobStatus.queued JobStatus.parsing = true
job_allows JobStatus.queued JobStatus.failed = true
job_allows JobStatus.queued JobStatus.cancelled = true
job_allows JobStatus.parsing JobStatus.extracted = true
job_allows JobStatus.parsing JobStatus.queued = true
job_allows JobStatus.parsing t = is_job_extraction_end t
job_allows JobStatus.extracted t = is_job_extraction_end t
job_allows JobStatus.failed JobStatus.queued = true
job_allows _ _ = false
