-- ===== src/Orchestration/Clarification/OneOpen.antt =====
-- The calls of services/api/app/services/clarification_service.py keep at most one question of each
-- job open.
use finance_intelligence.Orchestration.Clarification.Service.{is_clarification_of}
use finance_intelligence.Prelude.{
  Bool-cases, List, Option, arith, false, if◌then◌else◌, inl, inr, none, refl, some, true, ℕ, ◌==◌,
  ◌||◌, ◌≡◌, ◌≤◌, [], ok, ◌++◌, ◌∷◌,
}
use mathlib.Core.Option
use finance_intelligence.Orchestration.StateMachine.{
  is_terminal, AnalysisJobStatus, validate_transition, is_allowed,
}
use finance_intelligence.Orchestration.Clarification.{
  ClarificationTables, is_waiting, has_clarification_id, AnalysisClarification, set_job_status,
  check_transition, set_clarification, is_awaiting,
}
use finance_intelligence.Orchestration.Clarification.Questions.{
  find_updated, count-close, room, is_open, OneOpen, count-append, count-close_open,
}
use finance_intelligence.Orchestration.Store.{first_where, has_id, AnalysisJob, update_where}

pub room-le : (o : Option AnalysisJob) → room o ≤ 1
unfolding room
room-le none = omega arith
room-le (some j) = ground arith

-- An update of a job to a status that has room for one question.
module _ (f : AnalysisJob → AnalysisJob) (keeps : (j : AnalysisJob) → (f j).id ≡ j.id)
    (settles : (j : AnalysisJob)
      → (is_terminal (f j).status || is_waiting (f j).status) ≡ true) where
  room-settled : (o : Option AnalysisJob) → room (Option.map f o) ≡ 1
  unfolding room
  room-settled none = refl
  room-settled (some j) = rw (settles j) refl

  room-update :
      (id job : ℕ) (jobs : List AnalysisJob)
      → room (first_where (has_id job) (update_where (has_id id) f jobs))
        ≡ (if id == job then 1 else room (first_where (has_id job) jobs))
  room-update id job jobs =
      let q = find_updated id job f jobs keeps in
      let r = room-settled (first_where (has_id job) jobs) in
      elim (Bool-cases (id == job)) [ inl t ↦ rw (q, t, r) refl | inr n ↦ rw (q, n) refl ]

  -- Closing a question and settling its job.
  pub close-OneOpen :
      (id cid : ℕ) (g : AnalysisClarification → AnalysisClarification)
      (db db' : ClarificationTables)
      → ((job : ℕ) (c : AnalysisClarification) → is_open job (g c) ≡ false)
      → db'.jobs ≡ update_where (has_id id) f db.jobs
      → db'.clarifications ≡ update_where (has_clarification_id cid) g db.clarifications
      → OneOpen db
      → OneOpen db'
  close-OneOpen id cid g db db' closes q r h job =
      let less = count-close g closes cid job db.clarifications in
      let before = h job in
      let most = room-le (first_where (has_id job) db.jobs) in
      let after = room-update id job db.jobs in
      elim (Bool-cases (id == job)) [
        | inl e ↦ rw (r, q, after, e) (omega (arith, less, before, most))
        | inr n ↦ rw (r, q, after, n) (omega (arith, less, before))
      ]

no_room :
    (s : AnalysisJobStatus)
    → check_transition s AnalysisJobStatus.needs_clarification ≡ ok tt
    → (is_terminal s || is_waiting s) ≡ false
unfolding check_transition validate_transition is_allowed is_terminal is_waiting
no_room s h = ground arith

room-asked :
    (o : Option AnalysisJob) (j : AnalysisJob)
    → o ≡ some j
    → check_transition j.status AnalysisJobStatus.needs_clarification ≡ ok tt
    → room o ≡ 0
unfolding room
room-asked o j e h = rw (e, no_room j.status h) refl

-- Asking a question of a job that may be asked one.
pub ask-OneOpen :
    (c : AnalysisClarification) (now : ℕ) (db db' : ClarificationTables) (j : AnalysisJob)
    → first_where (has_id c.analysis_job_id) db.jobs ≡ some j
    → check_transition j.status AnalysisJobStatus.needs_clarification ≡ ok tt
    → db'.jobs
      ≡ (set_job_status c.analysis_job_id AnalysisJobStatus.needs_clarification now db).jobs
    → db'.clarifications ≡ db.clarifications ++ c ∷ []
    → OneOpen db
    → OneOpen db'
unfolding set_job_status is_terminal is_waiting is_open
ask-OneOpen c now db db' j p a q r h job =
    let before = h job in
    let longer = count-append (is_open job) db.clarifications c in
    let after =
      room-update
        (λ k. record k { status = AnalysisJobStatus.needs_clarification; updated_at = now })
        (λ k. refl) (λ k. refl) c.analysis_job_id job db.jobs in
    elim (Bool-cases (c.analysis_job_id == job)) [
      | inl t ↦
          let e : c.analysis_job_id ≡ job = ground arith in
          let empty = room-asked (first_where (has_id job) db.jobs) j (rw e at p) a in
          rw (r, q, after, t, longer) (ground (arith, before, empty))
      | inr n ↦ rw (r, q, after, n, longer) (ground (arith, before))
    ]

-- Accepting the answer to an open question.
pub accept-OneOpen :
    (id job_id now : ℕ) (g : AnalysisClarification → AnalysisClarification)
    (db db' : ClarificationTables) (c : AnalysisClarification)
    → ((job : ℕ) (d : AnalysisClarification) → is_open job (g d) ≡ false)
    → first_where (is_clarification_of id job_id) db.clarifications ≡ some c
    → is_awaiting c.status ≡ true
    → db'.jobs ≡ (set_job_status job_id AnalysisJobStatus.understanding_request now db).jobs
    → db'.clarifications ≡ (set_clarification id g db).clarifications
    → OneOpen db
    → OneOpen db'
unfolding set_job_status set_clarification
accept-OneOpen id job_id now g db db' c closes p a q r h job =
    let before = h job in
    let most = room-le (first_where (has_id job) db.jobs) in
    let found =
      find_updated job_id job
        (λ k. record k { status = AnalysisJobStatus.understanding_request; updated_at = now })
        db.jobs (λ k. refl) in
    elim (Bool-cases (job_id == job)) [
      | inl t ↦
          let e : job_id ≡ job = ground arith in
          let less = count-close_open g closes id job db.clarifications c (rw e at p) a in
          rw (r, q) (omega (arith, less, before, most))
      | inr n ↦
          let less = count-close g closes id job db.clarifications in
          rw (r, q, found, n) (omega (arith, less, before))
    ]
