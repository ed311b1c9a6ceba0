-- ===== src/Orchestration/Clarification/Batch.antt =====
-- That the batch of `expire_due_clarifications` of services/api/app/services/
-- clarification_service.py goes through, and what it leaves.
use finance_intelligence.Orchestration.Clarification.OneOpen.{room-le}
use finance_intelligence.Orchestration.Store.Rows.{All, All-map}
use finance_intelligence.Orchestration.Clarification.Writes.{notify-SameRows}
use finance_intelligence.Orchestration.Clarification.Service.{lapsed}
use finance_intelligence.Prelude.{
  Bool, Bool-cases, Option, Option-cases, arith, false, inl, inr, length, ltb, none, ok, refl, some,
  true, ℕ, ◌==◌, ◌||◌, ◌≡◌, ◌≤◌, ◌⊎◌, Result-cases, List, [], length-take, min, select, suc, take,
  zero, ◌∷◌,
}
use finance_intelligence.Orchestration.Store.{has_id, AnalysisJob, first_where}
use finance_intelligence.Orchestration.Clarification.Questions.{
  room, find_updated, is_open, OneOpen, count,
}
use finance_intelligence.Orchestration.Clarification.{
  AnalysisClarification, Platform, emit, check_transition, ClarificationService,
  ClarificationTables, set_job_status, is_waiting, set_clarification, transact,
}
use finance_intelligence.Orchestration.EventEngine.{max_payload_bytes, emit_event}
use finance_intelligence.Orchestration.StateMachine.{
  is_allowed, validate_transition, is_terminal, AnalysisJobStatus,
}
use finance_intelligence.Orchestration.Clarification.Expiry.{
  expire_job, notify, expired_payload, expire_one, expire_all, expire_due_clarifications, is_due,
}

-- There is no such job, or it is over.
unfoldable pub is_over : Option AnalysisJob → Bool
is_over none = true
is_over (some j) = is_terminal j.status

abbrev job_of : AnalysisClarification → ClarificationTables → Option AnalysisJob
job_of c db = first_where (has_id c.analysis_job_id) db.jobs

-- What a step does to every job: a job that has room for a question keeps it, and a job that is over
-- stays so.
abbrev Settles : ClarificationTables → ClarificationTables → Type 0
Settles db db' =
    (id : ℕ)
    → (room (first_where (has_id id) db.jobs) ≡ 1 → room (first_where (has_id id) db'.jobs) ≡ 1)
      × (is_over (first_where (has_id id) db.jobs) ≡ true
          → is_over (first_where (has_id id) db'.jobs) ≡ true)

-- The payload of an event of expiry is small enough, whatever the clarification.
abbrev pub Fits : Platform → Type 0
Fits p = (c : AnalysisClarification) → length (p.dumps (expired_payload p c)) ≤ max_payload_bytes

can_expire :
    (s : AnalysisJobStatus)
    → is_terminal s ≡ false
    → (is_terminal s || is_waiting s) ≡ true
    → check_transition s AnalysisJobStatus.expired ≡ ok tt
unfolding check_transition validate_transition is_allowed is_terminal is_waiting
can_expire s h k = ground arith

module _ (p : Platform) (self : ClarificationService) (now : ℕ) where
  abbrev expire : AnalysisJob → AnalysisJob
  expire j = record j { status = AnalysisJobStatus.expired; updated_at = now }

  expire_job-total :
      (c : AnalysisClarification) (o : Option AnalysisJob) (db : ClarificationTables)
      → room o ≡ 1
      → ((is_over o ≡ true) × (expire_job p self now c o db ≡ ok db))
        ⊎ (expire_job p self now c o db
            ≡ ok (set_job_status c.analysis_job_id AnalysisJobStatus.expired now db))
  unfolding expire_job room is_over
  expire_job-total c none db h = inl (refl, refl)
  expire_job-total c (some j) db h = elim (Bool-cases (is_terminal j.status)) [
    | inl t ↦ inl (t, rw (t, expire_job) refl)
    | inr f ↦
        let waits : (is_terminal j.status || is_waiting j.status) ≡ true = ground arith in
        inr (rw (f, can_expire j.status f waits, expire_job) refl)
  ]

  Settles-expire :
      (id : ℕ) (db : ClarificationTables)
      → Settles db (set_job_status id AnalysisJobStatus.expired now db)
  unfolding set_job_status room is_over is_terminal
  Settles-expire id db job =
      let q = find_updated id job expire db.jobs (λ j. refl) in
      elim (Bool-cases (id == job)) [
        | inl t ↦ elim (Option-cases (first_where (has_id job) db.jobs)) [
          | inl n ↦ (λ h. rw (q, t, n) refl, λ h. rw (q, t, n) refl)
          | inr (j, n) ↦ (λ h. rw (q, t, n) refl, λ h. rw (q, t, n) refl)
        ]
        | inr f ↦ (λ h. rw (q, f) h, λ h. rw (q, f) h)
      ]

  over_expired :
      (id : ℕ) (db : ClarificationTables)
      → is_over (first_where (has_id id) (set_job_status id AnalysisJobStatus.expired now db).jobs)
        ≡ true
  unfolding set_job_status is_over is_terminal
  over_expired id db =
      let q = find_updated id id expire db.jobs (λ j. refl) in
      let t : (id == id) ≡ true = ground arith in
      elim (Option-cases (first_where (has_id id) db.jobs)) [
        | inl n ↦ rw (q, t, n) refl
        | inr (j, n) ↦ rw (q, t, n) refl
      ]

  notify-total :
      (c : AnalysisClarification) (db : ClarificationTables)
      → Fits p
      → (db' : ClarificationTables) × (notify p self now c db ≡ ok db')
  unfolding notify emit emit_event
  notify-total c db fits =
      let small : ltb max_payload_bytes (length (p.dumps (expired_payload p c))) ≡ false =
        ground (arith, fits c) in
      elim (Result-cases (notify p self now c db)) [
        | inl (db', k) ↦ (db', k)
        | inr (x, k) ↦ absurd (cc (rw (small, notify, emit, emit_event) at k))
      ]

  -- One turn of the loop.
  expire_one-total :
      (c : AnalysisClarification) (db : ClarificationTables)
      → Fits p
      → room (job_of c db) ≡ 1
      → (db' : ClarificationTables) × (expire_one p self now c db ≡ ok db')
        × Settles db db'
        × (is_over (job_of c db') ≡ true)
  unfolding expire_one set_clarification
  expire_one-total c db fits h =
      let closed = set_clarification c.id lapsed db in
      elim (expire_job-total c (job_of c db) closed h) [
        | inl (over, k) ↦
            let (db', q) = notify-total c closed fits in
            let same = notify-SameRows p self now c closed db' q in
            (db', rw (k, expire_one) q, rw (same.0) (λ id. (λ r. r, λ r. r)), rw (same.0) over)
        | inr k ↦
            let gone = set_job_status c.analysis_job_id AnalysisJobStatus.expired now closed in
            let (db', q) = notify-total c gone fits in
            let same = notify-SameRows p self now c gone db' q in
            (
              db',
              rw (k, expire_one) q,
              rw (same.0) (Settles-expire c.analysis_job_id closed),
              rw (same.0) (over_expired c.analysis_job_id closed),
            )
      ]

  expire_all-total :
      (cs : List AnalysisClarification) (db : ClarificationTables)
      → Fits p
      → All (λ c. room (job_of c db) ≡ 1) cs
      → (db' : ClarificationTables) × (expire_all p self now cs db ≡ ok db')
        × Settles db db'
        × All (λ c. is_over (job_of c db') ≡ true) cs
  unfolding expire_all
  expire_all-total [] db fits h = (db, refl, (λ id. (λ r. r, λ r. r)), tt)
  expire_all-total (c ∷ cs) db fits h =
      let (db₁, e, step, over) = expire_one-total c db fits h.0 in
      let rooms =
        All-map (λ d. room (job_of d db) ≡ 1) (λ d. room (job_of d db₁) ≡ 1) cs
          (λ d r. (step d.analysis_job_id).0 r) h.1 in
      let (db', q, steps, overs) = expire_all-total cs db₁ fits rooms in
      (
        db',
        rw (e, expire_all) q,
        λ id. (λ r. (steps id).0 ((step id).0 r), λ r. (steps id).1 ((step id).1 r)),
        ((steps c.analysis_job_id).1 over, overs),
      )

-- A clarification in the table that is due has a job with room for it.
due_has_room :
    (now : ℕ) (db : ClarificationTables) (cs : List AnalysisClarification)
    → ((job : ℕ) → count (is_open job) cs ≤ room (first_where (has_id job) db.jobs))
    → All (λ c. room (job_of c db) ≡ 1) (select (is_due now) cs)
unfolding is_due is_open
due_has_room now db [] h = tt
due_has_room now db (c ∷ cs) h =
    let rest = due_has_room now db cs (λ job. ground (arith, h job)) in
    elim (Bool-cases (is_due now c)) [
      | inl t ↦ rw t (ground (arith, h c.analysis_job_id, room-le (job_of c db)), rest)
      | inr f ↦ rw f rest
    ]

All-take :
    (P : AnalysisClarification → Type 0) (n : ℕ) (cs : List AnalysisClarification)
    → All P cs
    → All P (take n cs)
All-take P zero cs h = tt
All-take P (suc n) [] h = tt
All-take P (suc n) (c ∷ cs) h = (h.0, All-take P n cs h.1)

-- Where no question is open for a job under way, at most one is open for any other job (one that is
-- over, waits for an answer or is missing), and the payload of every expiry event is at most 32768
-- bytes long, `expire_due_clarifications` raises nothing, counts every question that is due up to
-- the size of the batch, and leaves the job of each of them over or missing.
pub expire_due_clarifications_total :
    (p : Platform) (self : ClarificationService) (batch_size now : ℕ) (db : ClarificationTables)
    → OneOpen db
    → Fits p
    → let batch = take batch_size (select (is_due now) db.clarifications) in
      (db' : ClarificationTables) × (expire_due_clarifications p self now batch_size db
        ≡ (db', ok (min batch_size (length (select (is_due now) db.clarifications)))))
      × All (λ c. is_over (first_where (has_id c.analysis_job_id) db'.jobs) ≡ true) batch
unfolding expire_due_clarifications transact
expire_due_clarifications_total p self batch_size now db h fits =
    let due = select (is_due now) db.clarifications in
    let (db', e, _, overs) = expire_all-total p self now (take batch_size due) db fits (
      All-take (λ c. room (job_of c db) ≡ 1) batch_size due
        (due_has_room now db db.clarifications h)) in
    (db', rw (e, length-take batch_size due) refl, overs)
