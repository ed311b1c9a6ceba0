-- ===== src/Examples/EventEngine.antt =====
-- services/api/app/orchestration/event_engine.py: two jobs of one tenant and one of another.

use finance_intelligence.Prelude.{[], drop, length, none, ok, refl, ℕ, ◌∷◌, ◌≡◌, String}
use finance_intelligence.Orchestration.EventEngine.Replay.{
  replay_events-drop, emit_event-replay_events,
}
use finance_intelligence.Orchestration.EventEngine.Numbering.{IsGapless, emit_event-IsGapless}
use finance_intelligence.Orchestration.EventEngine.{
  emit_event, job_events, last_sequence, AnalysisEvent, replay_events, Database,
}

abbrev empty : Database
empty = record { current_organization_id = none; events = [] }

abbrev emit : ℕ → ℕ → String → Database → Database
emit organization job event_type db = (emit_event organization job none event_type [] db).0

abbrev three : Database
three = emit 2 7 "e1" (emit 1 5 "e1" (emit 1 5 "e0" empty))

empty-IsGapless : IsGapless empty
unfolding job_events
empty-IsGapless organization job = tt

three-IsGapless : IsGapless three
three-IsGapless = emit_event-IsGapless 2 7 none "e1" [] _ (
    emit_event-IsGapless 1 5 none "e1" [] _
      (emit_event-IsGapless 1 5 none "e0" [] empty empty-IsGapless))

emit_event-IsGapless_example : IsGapless (emit 1 5 "e2" three)
emit_event-IsGapless_example = emit_event-IsGapless 1 5 none "e2" [] three three-IsGapless

replay_events-drop_example : (replay_events 1 5 1 three).1 ≡ drop 1 (job_events 1 5 three)
replay_events-drop_example = replay_events-drop 1 5 1 three three-IsGapless

abbrev third : AnalysisEvent
third = record {
  organization_id = 1;
  analysis_job_id = 5;
  analysis_attempt_id = none;
  sequence = 3;
  event_type = "e2";
  payload_json = [];
}

third_emitted : (emit_event 1 5 none "e2" [] three).1 ≡ ok third
unfolding emit_event last_sequence
third_emitted = refl

emit_event-replay_events_example :
    (replay_events 1 5 (length (job_events 1 5 three)) (emit_event 1 5 none "e2" [] three).0).1
    ≡ third ∷ []
emit_event-replay_events_example =
    emit_event-replay_events 1 5 none "e2" [] three third three-IsGapless third_emitted
