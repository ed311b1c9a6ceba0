-- ===== src/Orchestration/EventEngine/Replay.antt =====
-- What a client that reconnects is sent.

use finance_intelligence.Prelude.{
  ok, length, Option, ℕ, zero, suc, ◌+◌, ◌<◌, ◌≡◌, refl, List, [], ◌∷◌, drop, ltb, select,
  select-select, sort_by, arith, ◌++◌, String,
}
use finance_intelligence.Orchestration.EventEngine.{
  AnalysisEvent, Database, is_of, job_events, replay_events, emit_event,
}
use finance_intelligence.Orchestration.EventEngine.Numbering.{
  IsNumbered, IsGapless, emit_event-IsGapless, job_events-emit_event,
}

-- Events that are numbered in order are sorted already.
sort_by-IsNumbered :
    (k : ℕ) (es : List AnalysisEvent) → IsNumbered k es → sort_by (λ e. e.sequence) es ≡ es
unfolding sort_by
sort_by-IsNumbered k [] h = refl
sort_by-IsNumbered k (e ∷ []) h = refl
sort_by-IsNumbered k (e ∷ f ∷ es) h = rw (sort_by-IsNumbered (suc k) (f ∷ es) h.1) (ground arith)

select-all :
    (k n : ℕ) (es : List AnalysisEvent)
    → IsNumbered k es
    → n < k
    → select (λ e. ltb n e.sequence) es ≡ es
select-all k n [] h p = refl
select-all k n (e ∷ es) h p = ground (arith, select-all (suc k) n es h.1)

-- The numbers above `m` are those from a position on.
select-drop :
    (k n m : ℕ) (es : List AnalysisEvent)
    → m ≡ n + k
    → IsNumbered k es
    → select (λ e. ltb m e.sequence) es ≡ drop (suc n) es
select-drop k n m [] p h = refl
select-drop k zero m (e ∷ es) p h = ground (arith, select-all (suc k) m es h.1)
select-drop k (suc n) m (e ∷ es) p h = ground (arith, select-drop (suc k) n m es (omega arith) h.1)

select-drop_seen :
    (seen : ℕ) (es : List AnalysisEvent)
    → IsNumbered 1 es
    → select (λ e. ltb seen e.sequence) es ≡ drop seen es
select-drop_seen zero es h = select-all 1 0 es h (omega arith)
select-drop_seen (suc n) es h = select-drop 1 n (suc n) es (omega arith) h

IsNumbered-drop :
    (k n m : ℕ) (es : List AnalysisEvent) → m ≡ n + k → IsNumbered k es → IsNumbered m (drop n es)
IsNumbered-drop k zero m es p h = let e : m ≡ k = omega arith in rw e h
IsNumbered-drop k (suc n) m [] p h = tt
IsNumbered-drop k (suc n) m (e ∷ es) p h = IsNumbered-drop (suc k) n m es (omega arith) h.1

-- With the events numbered without gaps, a replay sends a client that has seen the first `seen`
-- events of a job exactly the later ones, in the order in which they were emitted, and no event of
-- another job or tenant.
pub replay_events-drop :
    (organization job seen : ℕ) (db : Database)
    → IsGapless db
    → (replay_events organization job seen db).1 ≡ drop seen (job_events organization job db)
unfolding replay_events job_events
replay_events-drop organization job seen db h =
    let rows = select (is_of organization job) db.events in
    rw (
      select-select (is_of organization job) (λ e. ltb seen e.sequence) db.events,
      select-drop_seen seen rows (h organization job),
      sort_by-IsNumbered (seen + 1) (drop seen rows)
          (IsNumbered-drop 1 seen (seen + 1) rows refl (h organization job)),
    )

drop-append {ℓ} : {A : Type ℓ} (xs : List A) (x : A) → drop (length xs) (xs ++ x ∷ []) ≡ x ∷ []
drop-append [] x = refl
drop-append (y ∷ xs) x = drop-append xs x

-- A client that has seen all the events of a job so far, and reconnects after one more was
-- emitted, is sent that one event.
pub emit_event-replay_events :
    (organization job : ℕ) (attempt : Option ℕ) (event_type : String) (payload : List ℕ)
    (db : Database) (event : AnalysisEvent)
    → IsGapless db
    → (emit_event organization job attempt event_type payload db).1 ≡ ok event
    → (replay_events organization job
        (length (job_events organization job db))
        (emit_event organization job attempt event_type payload db).0).1
      ≡ event ∷ []
emit_event-replay_events organization job attempt event_type payload db event h e =
    let after = (emit_event organization job attempt event_type payload db).0 in
    let gapless : IsGapless after =
      emit_event-IsGapless organization job attempt event_type payload db h in
    rw
      (
        replay_events-drop organization job (length (job_events organization job db)) after gapless,
        job_events-emit_event organization job attempt event_type payload db event e,
      )
      (drop-append (job_events organization job db) event)
