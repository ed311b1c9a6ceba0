-- ===== src/Orchestration/Clarification/Overdue.antt =====
-- The batch of `expire_due_clarifications` of services/api/app/services/clarification_service.py.
use finance_intelligence.Prelude.{
  Bool-cases, List, Option, [], ap, arith, bind-ok, inl, inr, length, none, ok, ok-injective, refl,
  select, some, sym, take, then-ok, ℕ, ◌>>=◌, ◌∙◌, ◌∷◌, ◌≡◌, ◌⊎◌,
}
use mathlib.Core.Path.{subst}
use finance_intelligence.Orchestration.StateMachine.{AnalysisJobStatus, is_terminal}
use finance_intelligence.Orchestration.Clarification.OneOpen.{close-OneOpen}
use finance_intelligence.Orchestration.Clarification.Questions.{is_open, count-close, OneOpen}
use finance_intelligence.Orchestration.Clarification.Writes.{
  transact-ind, notify-SameRows, SameRows,
}
use finance_intelligence.Orchestration.Clarification.Service.{lapsed}
use finance_intelligence.Orchestration.Store.{has_id, first_where, AnalysisJob}
use finance_intelligence.Orchestration.Clarification.{
  ClarificationTables, check_transition, AnalysisClarification, set_job_status, Platform,
  set_clarification, ClarificationService,
}
use finance_intelligence.Orchestration.Clarification.Expiry.{
  notify, expire_one, expire_job, expire_all, is_due, expire_due_clarifications,
}

module _ (p : Platform) (self : ClarificationService) (now : ℕ) where
  -- What is done with the job: nothing, or it expires.
  pub expire_job-ok :
      (c : AnalysisClarification) (o : Option AnalysisJob) (db db' : ClarificationTables)
      → expire_job p self now c o db ≡ ok db'
      → (db' ≡ db) ⊎ (db' ≡ set_job_status c.analysis_job_id AnalysisJobStatus.expired now db)
  unfolding expire_job
  expire_job-ok c none db db' e = inl (sym (ok-injective e))
  expire_job-ok c (some j) db db' e = elim (Bool-cases (is_terminal j.status)) [
    | inl t ↦ inl (sym (ok-injective (rw (t, expire_job) at e)))
    | inr f ↦
        let (u, k, q) = then-ok (check_transition _ _) (ok _) db' (rw (f, expire_job) at e) in
        inr (sym (ok-injective q))
  ]

  pub expire_one-ok :
      (c : AnalysisClarification) (db db' : ClarificationTables)
      → expire_one p self now c db ≡ ok db'
      → (db₁ : ClarificationTables) × (expire_job p self now c
            (first_where (has_id c.analysis_job_id) db.jobs)
            (set_clarification c.id lapsed db)
          ≡ ok db₁)
        × SameRows db₁ db'
  unfolding expire_one
  expire_one-ok c db db' e =
      let (db₁, k, q) = bind-ok (expire_job p self now c _ _) (notify p self now c) db' e in
      (db₁, k, notify-SameRows p self now c db₁ db' q)

  expire_one-OneOpen :
      (c : AnalysisClarification) (db db' : ClarificationTables)
      → expire_one p self now c db ≡ ok db'
      → OneOpen db
      → OneOpen db'
  unfolding set_clarification set_job_status lapsed is_open is_terminal
  expire_one-OneOpen c db db' e h =
      let (db₁, k, same) = expire_one-ok c db db' e in
      elim (expire_job-ok c _ _ db₁ k) [
        | inl q ↦ λ job.
            let jobs : db'.jobs ≡ db.jobs = same.0 ∙ ap (λ d. d.jobs) q in
            let rows = same.1 ∙ ap (λ d. d.clarifications) q in
            rw (jobs, rows)
              (omega
                (arith, h job, count-close lapsed (λ i d. ground arith) c.id job db.clarifications))
        | inr q ↦
            close-OneOpen (λ i. record i { status = AnalysisJobStatus.expired; updated_at = now })
              (λ i. refl) (λ i. refl) c.analysis_job_id c.id lapsed db db' (λ i d. ground arith)
              (same.0 ∙ ap (λ d. d.jobs) q) (same.1 ∙ ap (λ d. d.clarifications) q) h
      ]

  expire_all-OneOpen :
      (cs : List AnalysisClarification) (db db' : ClarificationTables)
      → expire_all p self now cs db ≡ ok db'
      → OneOpen db
      → OneOpen db'
  unfolding expire_all
  expire_all-OneOpen [] db db' e h = subst OneOpen (ok-injective e) h
  expire_all-OneOpen (c ∷ cs) db db' e h =
      let (db₁, k, q) = bind-ok (expire_one p self now c db) (expire_all p self now cs) db' e in
      expire_all-OneOpen cs db₁ db' q (expire_one-OneOpen c db db₁ k h)

  pub expire_due-OneOpen :
      (batch_size : ℕ) (db : ClarificationTables)
      → OneOpen db
      → OneOpen (expire_due_clarifications p self now batch_size db).0
  unfolding expire_due_clarifications
  expire_due-OneOpen batch_size db h =
      let batch = take batch_size (select (is_due now) db.clarifications) in
      transact-ind OneOpen db (expire_all p self now batch db >>= λ d. ok (d, length batch)) h
        (λ db' n e.
          let (db₁, k, q) =
            bind-ok (expire_all p self now batch db) (λ d. ok (d, length batch)) (db', n) e in
          expire_all-OneOpen batch db db' (k ∙ ap ok (ap (λ r. r.0) (ok-injective q))) h)
