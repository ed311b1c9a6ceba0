-- ===== src/Orchestration/EventEngine.antt =====
-- services/api/app/orchestration/event_engine.py: the events of an analysis job, numbered in the
-- order in which they are emitted. The database is the list of its rows in the order of insertion,
-- with the tenant that the session has set. A payload is the JSON text that `json.dumps` makes of
-- it, as its UTF-8 bytes. Identifiers are numbers; the time and the version of an event are left
-- out, since nothing reads them.
pub mod Numbering
pub mod Replay
use finance_intelligence.Prelude.{
  ℕ, ◌+◌, Bool, ◌&&◌, Option, none, some, List, [], ◌∷◌, ◌++◌, Result, ok, err, length, select,
  sort_by, max, ltb, ◌==◌, if◌then◌else◌, String,
}

-- `class AnalysisEvent`.
pub record AnalysisEvent : Type 0 where
  pub organization_id : ℕ
  pub analysis_job_id : ℕ
  pub analysis_attempt_id : Option ℕ
  pub sequence : ℕ
  pub event_type : String
  pub payload_json : List ℕ

pub record Database : Type 0 where
  pub current_organization_id : Option ℕ
  pub events : List AnalysisEvent

-- `MAX_PAYLOAD_BYTES`.
abbrev pub max_payload_bytes : ℕ
max_payload_bytes = 32768

-- `EventPayloadTooLargeException`.
pub data EventError : Type 0 where
  event_payload_too_large : EventError

-- `set_config('app.current_organization_id', …)`.
set_context : ℕ → Database → Database
set_context organization db = record db { current_organization_id = some organization }

-- The rows that both queries ask for: those of one job of one tenant.
abbrev pub is_of : ℕ → ℕ → AnalysisEvent → Bool
is_of organization job e = e.organization_id == organization && e.analysis_job_id == job

unfoldable pub job_events : ℕ → ℕ → Database → List AnalysisEvent
job_events organization job db = select (is_of organization job) db.events

-- `ORDER BY sequence DESC LIMIT 1`, or 0 where there is no row.
unfoldable pub last_sequence : List AnalysisEvent → ℕ
last_sequence [] = 0
last_sequence (e ∷ es) = max e.sequence (last_sequence es)

unfoldable pub emit_event :
    ℕ → ℕ → Option ℕ → String → List ℕ → Database → Database × Result EventError AnalysisEvent
unfolding set_context job_events
emit_event organization job attempt event_type payload db =
    let db' = set_context organization db in
    if ltb max_payload_bytes (length payload)
    then (db', err event_payload_too_large)
    else let event : AnalysisEvent = record {
      organization_id = organization;
      analysis_job_id = job;
      analysis_attempt_id = attempt;
      sequence = last_sequence (job_events organization job db') + 1;
      event_type = event_type;
      payload_json = payload;
    } in
      (record db' { events = db'.events ++ event ∷ [] }, ok event)

unfoldable pub replay_events : ℕ → ℕ → ℕ → Database → Database × List AnalysisEvent
unfolding set_context sort_by
replay_events organization job last_seen db =
    let db' = set_context organization db in
    (
      db',
      sort_by (λ e. e.sequence)
          (select (λ e. is_of organization job e && ltb last_seen e.sequence) db'.events),
    )
