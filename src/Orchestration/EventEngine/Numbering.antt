-- ===== src/Orchestration/EventEngine/Numbering.antt =====
-- The numbers of a job's events.
use finance_intelligence.Prelude.{
  ok, ℕ, suc, ◌+◌, ◌≡◌, refl, true, Option, List, [], ◌∷◌, ◌++◌, length, max, ltb, select,
  Bool-cases, inl, inr, if◌then◌else◌, arith, String,
}
use finance_intelligence.Orchestration.EventEngine.{
  AnalysisEvent, Database, max_payload_bytes, is_of, job_events, last_sequence, emit_event,
}

-- The events are numbered one after the other from `k`.
abbrev pub IsNumbered : ℕ → List AnalysisEvent → Type 0
IsNumbered k [] = Unit
IsNumbered k (e ∷ es) = (e.sequence ≡ k) × IsNumbered (suc k) es

-- In every job of every tenant the events are numbered from 1 with no gap, in the order in which
-- they were emitted.
abbrev pub IsGapless : Database → Type 0
IsGapless db = (organization job : ℕ) → IsNumbered 1 (job_events organization job db)

last_sequence-IsNumbered :
    (k : ℕ) (es : List AnalysisEvent)
    → IsNumbered (suc k) es
    → max k (last_sequence es) ≡ k + length es
unfolding last_sequence
last_sequence-IsNumbered k [] h = omega arith
last_sequence-IsNumbered k (e ∷ es) h = omega (arith, last_sequence-IsNumbered (suc k) es h.1, h.0)

IsNumbered-snoc :
    (k : ℕ) (es : List AnalysisEvent) (e : AnalysisEvent)
    → IsNumbered k es
    → e.sequence ≡ k + length es
    → IsNumbered k (es ++ e ∷ [])
IsNumbered-snoc k [] e h p = (omega arith, tt)
IsNumbered-snoc k (x ∷ es) e h p = (h.0, IsNumbered-snoc (suc k) es e h.1 (omega arith))

-- A row goes to the end of its own job's events, and to no other's.
job_events-append :
    (organization job : ℕ) (es : List AnalysisEvent) (e : AnalysisEvent)
    → select (is_of organization job) (es ++ e ∷ []) ≡ (
        if is_of organization job e
        then select (is_of organization job) es ++ e ∷ []
        else select (is_of organization job) es)
job_events-append organization job [] e = ground arith
job_events-append organization job (x ∷ es) e =
    ground (arith, job_events-append organization job es e)

is_of-eq :
    (o j : ℕ) (e : AnalysisEvent)
    → is_of o j e ≡ true
    → (e.organization_id ≡ o) × (e.analysis_job_id ≡ j)
is_of-eq o j e h = ground arith

-- One more row with the next number of its own job.
append-IsGapless :
    (es : List AnalysisEvent) (e : AnalysisEvent)
    → e.sequence ≡ last_sequence (select (is_of e.organization_id e.analysis_job_id) es) + 1
    → ((o j : ℕ) → IsNumbered 1 (select (is_of o j) es))
    → (o j : ℕ) → IsNumbered 1 (select (is_of o j) (es ++ e ∷ []))
append-IsGapless es e next h o j = elim (Bool-cases (is_of o j e)) [
  | inl mine ↦
      let (p, q) = is_of-eq o j e mine in
      let place : e.sequence ≡ 1 + length (select (is_of o j) es) =
        omega
          (arith, last_sequence-IsNumbered 0 (select (is_of o j) es) (h o j), rw (p, q) at next) in
      rw (job_events-append, mine) (IsNumbered-snoc 1 (select (is_of o j) es) e (h o j) place)
  | inr other ↦ rw (job_events-append, other) (h o j)
]

-- Emitting an event, also one that is refused, leaves every job of every tenant numbered from 1
-- with no gap.
pub emit_event-IsGapless :
    (organization job : ℕ) (attempt : Option ℕ) (event_type : String) (payload : List ℕ)
    (db : Database)
    → IsGapless db
    → IsGapless (emit_event organization job attempt event_type payload db).0
unfolding emit_event job_events
emit_event-IsGapless organization job attempt event_type payload db h =
    elim (Bool-cases (ltb max_payload_bytes (length payload))) [
      | inl large ↦ rw large h
      | inr fits ↦ rw fits (append-IsGapless db.events _ refl h)
    ]

-- A successful emission puts its event at the end of its job's events.
pub job_events-emit_event :
    (organization job : ℕ) (attempt : Option ℕ) (event_type : String) (payload : List ℕ)
    (db : Database) (event : AnalysisEvent)
    → (emit_event organization job attempt event_type payload db).1 ≡ ok event
    → job_events organization job (emit_event organization job attempt event_type payload db).0
      ≡ job_events organization job db ++ event ∷ []
unfolding emit_event job_events
job_events-emit_event organization job attempt event_type payload db event h =
    elim (Bool-cases (ltb max_payload_bytes (length payload))) [
      | inl large ↦ ground arith
      | inr fits ↦ ground (arith, job_events-append organization job db.events event)
    ]
