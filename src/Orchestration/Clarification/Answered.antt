-- ===== src/Orchestration/Clarification/Answered.antt =====
-- A job whose question was answered, over the further calls of
-- services/api/app/services/clarification_service.py.
use finance_intelligence.Orchestration.Clarification.Overdue.{expire_one-ok, expire_job-ok}
use mathlib.Core.Path.{subst}
use finance_intelligence.Orchestration.Store.Rows.{All}
use finance_intelligence.Orchestration.Clarification.Expiry.{
  expire_all, expire_due_clarifications, expire_one, is_due,
}
use finance_intelligence.Audit.{Fields}
use finance_intelligence.Orchestration.Clarification.Writes.{
  transact-ind, withdraw_checked-ok, withdraw-rows, accept_checked-ok, ask-rows, accept-rows,
}
use finance_intelligence.Orchestration.Clarification.Service.{
  cancel, require_clarification, respond, ask_checked, lapse, new_clarification, withdraw_checked,
  answerable, is_late, accept_checked, ask, lapsed,
}
use finance_intelligence.Orchestration.StateMachine.{AnalysisJobStatus}
use finance_intelligence.Orchestration.Clarification.Questions.{find_updated}
use finance_intelligence.Orchestration.Store.{AnalysisJob, first_where, has_id, update_where}
use finance_intelligence.Orchestration.Clarification.{
  ClarificationTables, is_waiting, Platform, set_job_status, ClarificationService,
  set_clarification, found, check_transition, AnalysisClarification, analysis_not_found,
}
use finance_intelligence.Prelude.{
  Bool, Bool-cases, List, [], ap, false, inl, inr, some, true, ℕ, ◌==◌, ◌∙◌, ◌∷◌, ◌≡◌, Result-cases,
  bind-ok, refl, then-ok, arith, length, ok, ok-injective, select, take, ◌>>=◌, ◌>>◌,
}
use finance_intelligence.Orchestration.Clarification.Calls.{
  Call, require_call, respond_call, cancel_call, expire_call, run,
}

-- A call that asks a question of the job.
unfoldable pub asks : ℕ → Call → Bool
asks job (require_call id target code prompt_key question schema attempt_number ttl now) =
    target == job
asks job _ = false

-- Calls of several sessions, one after the other.
unfoldable pub run_by :
    Platform → List (ClarificationService × Call) → ClarificationTables → ClarificationTables
unfolding run
run_by p [] db = db
run_by p ((self, call) ∷ calls) db = run_by p calls (run p self (call ∷ []) db)

contrary : (b : Bool) {A : Type 0} → b ≡ false → b ≡ true → A
contrary b n t = absurd (cc (n, t))

module _ (user job : ℕ) where
  -- The job is the user's and waits for no answer.
  abbrev pub Answered : ClarificationTables → Type 0
  Answered db =
      (k : AnalysisJob) × (first_where (has_id job) db.jobs ≡ some k)
      × (k.user_id ≡ user)
      × (is_waiting k.status ≡ false)

  Answered-update :
      (id : ℕ) (f : AnalysisJob → AnalysisJob) (db db' : ClarificationTables)
      → ((k : AnalysisJob) → (f k).id ≡ k.id)
      → ((k : AnalysisJob) → (f k).user_id ≡ k.user_id)
      → ((id == job) ≡ true → (k : AnalysisJob) → is_waiting (f k).status ≡ false)
      → db'.jobs ≡ update_where (has_id id) f db.jobs
      → Answered db
      → Answered db'
  Answered-update id f db db' same_id same_user waits jobs (k, found_k, user_k, waits_k) =
      let read = ap (first_where (has_id job)) jobs ∙ find_updated id job f db.jobs same_id in
      elim (Bool-cases (id == job)) [
        | inl t ↦ (f k, rw (t, found_k) at read, same_user k ∙ user_k, waits t k)
        | inr n ↦ (k, rw (n, found_k) at read, user_k, waits_k)
      ]

  Answered-jobs : (db db' : ClarificationTables) → db'.jobs ≡ db.jobs → Answered db → Answered db'
  Answered-jobs db db' jobs (k, found_k, user_k, waits_k) =
      (k, ap (first_where (has_id job)) jobs ∙ found_k, user_k, waits_k)

  -- Where the job is the user's, its return to UNDERSTANDING_REQUEST makes it such.
  pub answers :
      (now : ℕ) (j : AnalysisJob) (db db' : ClarificationTables)
      → first_where (has_id job) db.jobs ≡ some j
      → j.user_id ≡ user
      → db'.jobs ≡ (set_job_status job AnalysisJobStatus.understanding_request now db).jobs
      → Answered db'
  unfolding set_job_status is_waiting
  answers now j db db' found_j user_j jobs =
      let f : AnalysisJob → AnalysisJob =
        λ k. record k { status = AnalysisJobStatus.understanding_request; updated_at = now } in
      (
        f j,
        ap (first_where (has_id job)) jobs
            ∙ find_updated job job f db.jobs (λ k. refl)
            ∙ ground (arith, found_j),
        user_j,
        refl,
      )

  Answered-set :
      (id : ℕ) (status : AnalysisJobStatus) (now : ℕ) (db db' : ClarificationTables)
      → ((id == job) ≡ true → is_waiting status ≡ false)
      → db'.jobs ≡ (set_job_status id status now db).jobs
      → Answered db
      → Answered db'
  unfolding set_job_status
  Answered-set id status now db db' waits =
      Answered-update id (λ k. record k { status = status; updated_at = now }) db db' (λ k. refl)
        (λ k. refl) (λ t k. waits t)

  module _ (p : Platform) (self : ClarificationService) where
    respond-Answered :
        (target id : ℕ) (payload : Fields) (attempt_id plan_id now : ℕ) (db : ClarificationTables)
        → Answered db
        → Answered (respond p self target id payload attempt_id plan_id now db).0
    unfolding respond lapse set_clarification
    respond-Answered target id payload attempt_id plan_id now db h =
        elim (Result-cases (answerable p self target id db)) [
          | inr (x, k) ↦ rw (k, respond) h
          | inl ((j, c), k) ↦ elim (Bool-cases (is_late now c.expires_at)) [
            | inl t ↦
                rw (k, t, respond)
                  (Answered-update j.id (λ k. record k { status = AnalysisJobStatus.expired }) db
                    (lapse p self j c db) (λ k. refl) (λ k. refl) (λ t k. refl) refl h)
            | inr f ↦
                rw (k, f, respond)
                  (transact-ind Answered db
                    (accept_checked p self j c payload attempt_id plan_id now db) h
                    (λ db' j' e.
                      let (payload', e') =
                        accept_checked-ok p self j c payload attempt_id plan_id now db (db', j')
                          e in
                      let rows =
                        accept-rows p self j j' c payload' attempt_id plan_id now db db' e' in
                      Answered-set j.id AnalysisJobStatus.understanding_request now db db'
                        (λ t. refl) rows.0 h))
          ]
        ]

    cancel-Answered :
        (target id : ℕ) (reason_code : List ℕ) (now : ℕ) (db : ClarificationTables)
        → Answered db
        → Answered (cancel p self target id reason_code now db).0
    unfolding cancel is_waiting
    cancel-Answered target id reason_code now db h =
        transact-ind Answered db (withdraw_checked p self target id reason_code now db) h
          (λ db' j' e.
            let (j, c, e₃) = withdraw_checked-ok p self target id reason_code now db (db', j') e in
            let rows = withdraw-rows p self j j' c reason_code now db db' e₃ in
            Answered-set j.id AnalysisJobStatus.cancelled now db db' (λ t. refl) rows.0 h)

    ask_checked-Answered :
        (c c' : AnalysisClarification) (now : ℕ) (db db' : ClarificationTables)
        → (c.analysis_job_id == job) ≡ false
        → ask_checked p self c now db ≡ ok (db', c')
        → Answered db
        → Answered db'
    unfolding ask_checked
    ask_checked-Answered c c' now db db' other e h =
        let (j, k, e₁) =
          bind-ok (found analysis_not_found (first_where (has_id c.analysis_job_id) db.jobs))
            (λ j.
              check_transition j.status AnalysisJobStatus.needs_clarification
              >> ask p self c now db)
            (db', c') e in
        let (u, allowed, asked) =
          then-ok (check_transition j.status AnalysisJobStatus.needs_clarification)
            (ask p self c now db) (db', c') e₁ in
        let rows = ask-rows p self c c' now db db' asked in
        Answered-set c.analysis_job_id AnalysisJobStatus.needs_clarification now db db'
          (contrary (c.analysis_job_id == job) other) rows.0 h

    require-Answered :
        (id target : ℕ) (code prompt_key question : List ℕ) (schema : Fields)
        (attempt_number ttl now : ℕ) (db : ClarificationTables)
        → (target == job) ≡ false
        → Answered db
        → Answered
            (require_clarification p self id target code prompt_key question schema attempt_number
              ttl now db).0
    unfolding require_clarification new_clarification
    require-Answered id target code prompt_key question schema attempt_number ttl now db other h =
        let c =
          new_clarification p self id target code prompt_key question schema attempt_number ttl
            now in
        transact-ind Answered db (ask_checked p self c now db) h
          (λ db' c' e. ask_checked-Answered c c' now db db' other e h)

    expire_one-Answered :
        (now : ℕ) (c : AnalysisClarification) (db db' : ClarificationTables)
        → expire_one p self now c db ≡ ok db'
        → Answered db
        → Answered db'
    unfolding set_clarification is_waiting
    expire_one-Answered now c db db' e h =
        let (db₁, k, same) = expire_one-ok p self now c db db' e in
        elim (expire_job-ok p self now c _ _ db₁ k) [
          | inl q ↦ Answered-jobs db db' (same.0 ∙ ap (λ d. d.jobs) q) h
          | inr q ↦
              Answered-set c.analysis_job_id AnalysisJobStatus.expired now
                (set_clarification c.id lapsed db) db' (λ t. refl) (same.0 ∙ ap (λ d. d.jobs) q) h
        ]

    expire_all-Answered :
        (now : ℕ) (cs : List AnalysisClarification) (db db' : ClarificationTables)
        → expire_all p self now cs db ≡ ok db'
        → Answered db
        → Answered db'
    unfolding expire_all
    expire_all-Answered now [] db db' e h = subst Answered (ok-injective e) h
    expire_all-Answered now (c ∷ cs) db db' e h =
        let (db₁, k, q) = bind-ok (expire_one p self now c db) (expire_all p self now cs) db' e in
        expire_all-Answered now cs db₁ db' q (expire_one-Answered now c db db₁ k h)

    expire_due-Answered :
        (batch_size now : ℕ) (db : ClarificationTables)
        → Answered db
        → Answered (expire_due_clarifications p self now batch_size db).0
    unfolding expire_due_clarifications
    expire_due-Answered batch_size now db h =
        let batch = take batch_size (select (is_due now) db.clarifications) in
        transact-ind Answered db (expire_all p self now batch db >>= λ d. ok (d, length batch)) h
          (λ db' n e.
            let (db₁, k, q) =
              bind-ok (expire_all p self now batch db) (λ d. ok (d, length batch)) (db', n) e in
            expire_all-Answered now batch db db' (k ∙ ap ok (ap (λ r. r.0) (ok-injective q))) h)

    run-Answered :
        (call : Call) (db : ClarificationTables)
        → asks job call ≡ false
        → Answered db
        → Answered (run p self (call ∷ []) db)
    unfolding run asks
    run-Answered (require_call id target code prompt_key question schema attempt_number ttl now) db
          other h =
        require-Answered id target code prompt_key question schema attempt_number ttl now db other h
    run-Answered (respond_call target id payload attempt_id plan_id now) db other h =
        respond-Answered target id payload attempt_id plan_id now db h
    run-Answered (cancel_call target id reason_code now) db other h =
        cancel-Answered target id reason_code now db h
    run-Answered (expire_call batch_size now) db other h = expire_due-Answered batch_size now db h

  pub run_by-Answered :
      (p : Platform) (calls : List (ClarificationService × Call)) (db : ClarificationTables)
      → All (λ c. asks job c.1 ≡ false) calls
      → Answered db
      → Answered (run_by p calls db)
  unfolding run_by
  run_by-Answered p [] db others h = h
  run_by-Answered p ((self, call) ∷ calls) db others h =
      run_by-Answered p calls _ others.1 (run-Answered p self call db others.0 h)
