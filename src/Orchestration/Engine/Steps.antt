-- ===== src/Orchestration/Engine/Steps.antt =====
-- What the statements of a run leave of the row of its job, so long as nobody else touches it.
use finance_intelligence.Orchestration.Engine.Execute.{fenced_update}
use finance_intelligence.Orchestration.CircuitBreaker.{check_allow_execution}
use finance_intelligence.Prelude.{
  ◌≡◌, refl, true, false, ok, err, Result, arith, any, ℕ, String, Option, Result-cases, inl, inr,
  none, some, Bool, ◌&&◌, length, ltb,
}
use finance_intelligence.Orchestration.StateMachine.{AnalysisJobStatus, validate_transition}
use finance_intelligence.Orchestration.Store.{
  AnalysisJob, has_id, is_held_by, is_active, AttemptStatus,
}
use finance_intelligence.Orchestration.Claims.{is_renewable}
use finance_intelligence.Audit.{Fields}
use finance_intelligence.Orchestration.EventEngine.{emit_event, max_payload_bytes}
use finance_intelligence.Orchestration.Engine.{
  EngineTables, EngineException, Session, Outcome, is_lost, write_job, write_attempt, check_move,
  set_status, lift, check_breaker, assert_fenced_ownership, raise_unless,
}
use finance_intelligence.Orchestration.Engine.Plan.{Collaborators, Execution}
use finance_intelligence.Orchestration.Engine.Run.{
  assert_owner, emit_for, move, touch, release, emit_of_attempt,
}
use finance_intelligence.Orchestration.Engine.Ends.{Ends, returned, raised, Ends-bind, Ends-lift}
use finance_intelligence.Orchestration.Engine.Rows.{Sees, Sees-same, Sees-update, any-select}

module _ (x : Execution) where
  -- The worker holds the row, in a status.
  abbrev pub Holds : AnalysisJobStatus → AnalysisJob → Type 0
  Holds status j = (is_held_by x.job_id x.claim_token x.worker_id j ≡ true) × (j.status ≡ status)

  abbrev pub Renewable : AnalysisJob → Type 0
  Renewable j = is_renewable x.job_id x.claim_token x.worker_id j ≡ true

  -- The committed row can be held on to, and the transaction's row is described by `R`.
  pub record Inside (R : AnalysisJob → Type 0) (status : AnalysisJobStatus) (s : Session)
      : Type 0 where
    pub saved : Sees x.job_id Renewable s.committed
    pub sees : Sees x.job_id R s.current
    pub object : s.job_status ≡ status

  -- An exception other than the loss of the job, with the committed row still held.
  abbrev pub Fault : EngineException → Session → Type 0
  Fault e s = Sees x.job_id Renewable s.committed × (is_lost e ≡ false)

  abbrev pub Kept : {A : Type 0} → (AnalysisJob → Type 0) → AnalysisJobStatus → Outcome A → Type 0
  Kept R status o = Ends (λ a s. Inside R status s) Fault o

  pub Holds-Renewable :
      (status : AnalysisJobStatus) (j : AnalysisJob)
      → is_active status ≡ true
      → Holds status j
      → Renewable j
  unfolding is_renewable
  Holds-Renewable status j a h = rw (h.0, h.1) a

  module _ (c : Collaborators) where
    module _ {R : AnalysisJob → Type 0} {status : AnalysisJobStatus} {s : Session} where
      pub Kept-assert_owner :
          {Q : EngineException → Session → Type 0}
          → Inside R status s
          → ((j : AnalysisJob) → R j → Renewable j)
          → Ends (λ a. Inside R status) Q (assert_owner c x s)
      unfolding assert_owner assert_fenced_ownership is_renewable is_held_by
      Kept-assert_owner v active =
          let test = is_renewable x.job_id x.claim_token x.worker_id in
          let e : any test s.current.rows.jobs ≡ true =
            rw (any-select (has_id x.job_id) test s.current.rows.jobs (λ y h. ground arith))
              (rw (v.sees.only) (rw (active v.sees.row v.sees.holds) refl)) in
          rw e (returned v)

      -- Statements that leave the table of jobs alone.
      pub Inside-same :
          (t : EngineTables)
          → Inside R status s
          → t.rows.jobs ≡ s.current.rows.jobs
          → Inside R status (record s { current = t })
      Inside-same t v e = record { saved = v.saved; sees = Sees-same v.sees e; object = v.object }

      pub Kept-emit_for :
          (attempt : Option ℕ) (event_type : String) (payload : Fields)
          → Inside R status s
          → Kept R status (emit_for c x attempt event_type payload s)
      unfolding emit_for is_lost
      Kept-emit_for attempt event_type payload v =
          let o =
            emit_event x.organization_id x.job_id attempt event_type (c.platform.dumps payload)
              s.current.rows.events in
          elim (Result-cases (o.1)) [
            | inl (e, p) ↦ rw (p, emit_for) (returned (Inside-same _ v refl))
            | inr (e, p) ↦ rw (p, emit_for) (raised (v.saved, refl))
          ]

      -- An event within the limit is always emitted.
      pub emit_for-returns :
          {Q : EngineException → Session → Type 0} (attempt : Option ℕ) (event_type : String)
          (payload : Fields)
          → Inside R status s
          → ltb max_payload_bytes (length (c.platform.dumps payload)) ≡ false
          → Ends (λ a. Inside R status) Q (emit_for c x attempt event_type payload s)
      unfolding emit_for emit_event
      emit_for-returns attempt event_type payload v fits =
          rw (fits, emit_for, emit_event) (returned (Inside-same _ v refl))

      pub Inside-write_job :
          {R' : AnalysisJob → Type 0} (f : AnalysisJob → AnalysisJob)
          → Inside R status s
          → ((j : AnalysisJob) → (f j).id ≡ j.id)
          → ((j : AnalysisJob) → R j → R' (f j))
          → Inside R' status (write_job x.job_id f s).0
      unfolding write_job
      Inside-write_job f v keep step = record {
        saved = v.saved;
        sees =
            Sees-update (has_id x.job_id) f v.sees refl (λ j. rw (keep j) refl)
              (λ j h at. (at, step j h));
        object = v.object;
      }

      pub Kept-check_move :
          {Q : EngineException → Session → Type 0} (status' : AnalysisJobStatus)
          → Inside R status s
          → validate_transition status status' ≡ ok tt
          → Ends (λ a. Inside R status) Q (check_move status' s)
      unfolding check_move
      Kept-check_move status' v e =
          let e' : validate_transition s.job_status status' ≡ ok tt = rw (v.object) e in
          rw (e', check_move) (returned v)

    module _ {R R' : AnalysisJob → Type 0} {status : AnalysisJobStatus} {s : Session} where
      pub Kept-set_status :
          {Q : EngineException → Session → Type 0} (status' : AnalysisJobStatus)
          → Inside R status s
          → ((j : AnalysisJob) → R j → R' (record j { status = status' }))
          → Ends (λ a. Inside R' status') Q (set_status x.job_id status' s)
      unfolding set_status write_job
      Kept-set_status status' v step = returned (record {
        saved = v.saved;
        sees = (Inside-write_job (λ j. record j { status = status' }) v (λ j. refl) step).sees;
        object = refl;
      })

      pub Kept-write_job :
          {Q : EngineException → Session → Type 0} (f : AnalysisJob → AnalysisJob)
          → Inside R status s
          → ((j : AnalysisJob) → (f j).id ≡ j.id)
          → ((j : AnalysisJob) → R j → R' (f j))
          → Ends (λ a. Inside R' status) Q (write_job x.job_id f s)
      unfolding write_job
      Kept-write_job f v keep step = returned (Inside-write_job f v keep step)

    module _ {R R' : AnalysisJob → Type 0} {status : AnalysisJobStatus} {s : Session} where
      pub Kept-move :
          {Q : EngineException → Session → Type 0} (status' : AnalysisJobStatus)
          → Inside R status s
          → validate_transition status status' ≡ ok tt
          → ((j : AnalysisJob) → R j → R' (record j { status = status' }))
          → Ends (λ a. Inside R' status') Q (move c x status' s)
      unfolding move
      Kept-move status' v e step =
          Ends-bind (Kept-check_move status' v e) λ _ _ v'. Kept-set_status status' v' step

    module _ {R : AnalysisJob → Type 0} {status : AnalysisJobStatus} {s : Session} where
      pub Kept-write_attempt :
          {Q : EngineException → Session → Type 0} (id : ℕ) (attempt : AttemptStatus)
          → Inside R status s
          → Ends (λ a. Inside R status) Q (write_attempt id attempt s)
      unfolding write_attempt
      Kept-write_attempt id attempt v = returned (Inside-same _ v refl)

      pub Kept-lift :
          {A : Type 0} (r : Result EngineException A)
          → Inside R status s
          → ((e : EngineException) → r ≡ err e → is_lost e ≡ false)
          → Kept R status (lift r s)
      Kept-lift r v calm = Ends-lift r s (λ a e. v) (λ e q. (v.saved, calm e q))

    pub Kept-check_breaker :
        {R : AnalysisJob → Type 0} {status : AnalysisJobStatus} {s : Session} (now : ℕ)
        → Inside R status s
        → Kept R status (check_breaker now s)
    unfolding check_breaker is_lost
    Kept-check_breaker {s} now v =
        let o = check_allow_execution now s.breaker in
        elim (Result-cases (o.1)) [
          | inl (u, p) ↦
              rw (p, check_breaker)
                (returned (record { saved = v.saved; sees = v.sees; object = v.object }))
          | inr (e, p) ↦ rw (p, check_breaker) (raised (v.saved, refl))
        ]

    pub Kept-emit :
        {R : AnalysisJob → Type 0} {status : AnalysisJobStatus} {s : Session} (event_type : String)
        (payload : Fields)
        → Inside R status s
        → Kept R status (emit_of_attempt c x event_type payload s)
    unfolding emit_of_attempt
    Kept-emit event_type payload v = Kept-emit_for (some x.attempt_id) event_type payload v

    pub Kept-touch_any :
        {Q : EngineException → Session → Type 0} {R R' : AnalysisJob → Type 0}
        {status : AnalysisJobStatus} {s : Session} (now : ℕ)
        → Inside R status s
        → ((j : AnalysisJob) → R j → R' (record j { updated_at = now }))
        → Ends (λ a. Inside R' status) Q (touch c x now s)
    unfolding touch
    Kept-touch_any now v step =
        Kept-write_job (λ j. record j { updated_at = now }) v (λ j. refl) step

    -- The worker still holds the row after columns that nobody is fenced by have changed.
    pub Kept-touch :
        {Q : EngineException → Session → Type 0} {status : AnalysisJobStatus} {s : Session}
        (now : ℕ)
        → Inside (Holds status) status s
        → Ends (λ a. Inside (Holds status) status) Q (touch c x now s)
    unfolding is_held_by
    Kept-touch now v = Kept-touch_any now v (λ j h. h)

    pub Kept-release :
        {Q : EngineException → Session → Type 0} {R R' : AnalysisJob → Type 0}
        {status : AnalysisJobStatus} {s : Session}
        → Inside R status s
        → ((j : AnalysisJob) → R j → R' (record j { lease_expires_at = none }))
        → Ends (λ a. Inside R' status) Q (release c x s)
    unfolding release
    Kept-release v step =
        Kept-write_job (λ j. record j { lease_expires_at = none }) v (λ j. refl) step

    pub Kept-assert :
        {Q : EngineException → Session → Type 0} {status : AnalysisJobStatus} {s : Session}
        → is_active status ≡ true
        → Inside (Holds status) status s
        → Ends (λ a. Inside (Holds status) status) Q (assert_owner c x s)
    Kept-assert {status} a v = Kept-assert_owner v (λ j. Holds-Renewable status j a)

    pub Kept-advance :
        {Q : EngineException → Session → Type 0} {status : AnalysisJobStatus} {s : Session}
        (status' : AnalysisJobStatus)
        → validate_transition status status' ≡ ok tt
        → Inside (Holds status) status s
        → Ends (λ a. Inside (Holds status') status') Q (move c x status' s)
    unfolding is_held_by
    Kept-advance status' e v = Kept-move status' v e (λ j h. (h.0, refl))

    module _ {R R' : AnalysisJob → Type 0} {status : AnalysisJobStatus} {s : Session} where
      -- An update under the fence finds its row.
      pub Kept-fenced_update :
          {Q : EngineException → Session → Type 0} (extra : AnalysisJob → Bool)
          (f : AnalysisJob → AnalysisJob)
          → Inside R status s
          → ((j : AnalysisJob) → (f j).id ≡ j.id)
          → ((j : AnalysisJob)
              → R j
              → (is_held_by x.job_id x.claim_token x.worker_id j ≡ true)
                × (extra j ≡ true)
                × R' (f j))
          → Ends (λ a. Inside R' status) Q (fenced_update c x extra f s)
      unfolding fenced_update is_held_by raise_unless
      Kept-fenced_update extra f v keep step =
          let test : AnalysisJob → Bool =
            λ j. is_held_by x.job_id x.claim_token x.worker_id j && extra j in
          let at = step v.sees.row v.sees.holds in
          let hit : any test s.current.rows.jobs ≡ true =
            rw (any-select (has_id x.job_id) test s.current.rows.jobs (λ y h. ground arith))
              (rw (v.sees.only) (rw (at.0, at.1) refl)) in
          rw (hit, fenced_update)
            (returned (record {
              saved = v.saved;
              sees =
                  Sees-update test f v.sees refl (λ j. rw (keep j) refl)
                    (λ j h a. let k = step j h in (rw (k.0, k.1) refl, k.2));
              object = v.object;
            }))
