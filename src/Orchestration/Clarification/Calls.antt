-- ===== src/Orchestration/Clarification/Calls.antt =====
-- Sequences of calls of services/api/app/services/clarification_service.py.
use finance_intelligence.Orchestration.Clarification.Overdue.{expire_due-OneOpen}
use mathlib.Core.Path.{subst}
use finance_intelligence.Orchestration.Store.{has_id, first_where, AnalysisJob}
use finance_intelligence.Orchestration.Store.Rows.{first_where-passes}
use finance_intelligence.Prelude.{
  Bool-cases, List, Result-cases, [], arith, bind-ok, inl, inr, ok, refl, then-ok, ℕ, ◌∷◌, ◌≡◌,
  ==_iff, some, sym, true, Bool, length, none, select, ◌≢◌, ◌≤◌,
}
use finance_intelligence.Orchestration.StateMachine.{is_terminal, AnalysisJobStatus}
use finance_intelligence.Orchestration.Clarification.Questions.{is_open, OneOpen, count}
use finance_intelligence.Orchestration.Clarification.OneOpen.{
  close-OneOpen, ask-OneOpen, accept-OneOpen, room-le,
}
use finance_intelligence.Orchestration.Clarification.Writes.{
  accept-rows, answerable-ok, ask-rows, found-ok, withdraw-rows,
  answerable_clarification-is_awaiting, accept_checked-ok, withdraw_checked-ok, transact-ind,
}
use finance_intelligence.Orchestration.Clarification.Expiry.{expire_due_clarifications}
use finance_intelligence.Audit.{Fields}
use finance_intelligence.Orchestration.Clarification.{
  set_clarification, found, check_transition, ClarificationTables, Platform, ClarificationService,
  set_job_status, AnalysisClarification, is_awaiting,
}
use finance_intelligence.Orchestration.Clarification.Service.{
  new_clarification, is_late, answerable, cancel, require_clarification, answered, respond, lapsed,
  lapse, withdrawn, is_clarification_of, accept_checked, ask_checked, withdraw_checked, ask,
  get_open_clarification, scalar_one_or_none,
}

pub data Call : Type 0 where
  require_call :
      (id job : ℕ) (code prompt_key question : List ℕ) (schema : Fields)
      (attempt_number ttl now : ℕ)
      → Call
  respond_call : (job id : ℕ) (payload : Fields) (attempt_id plan_id now : ℕ) → Call
  cancel_call : (job id : ℕ) (reason_code : List ℕ) (now : ℕ) → Call
  expire_call : (batch_size now : ℕ) → Call

module _ (p : Platform) (self : ClarificationService) where
  unfoldable pub run : List Call → ClarificationTables → ClarificationTables
  run [] db = db
  run (require_call id job code prompt_key question schema attempt_number ttl now ∷ cs) db =
      run cs
        (require_clarification p self id job code prompt_key question schema attempt_number ttl now
          db).0
  run (respond_call job id payload attempt_id plan_id now ∷ cs) db =
      run cs (respond p self job id payload attempt_id plan_id now db).0
  run (cancel_call job id reason_code now ∷ cs) db =
      run cs (cancel p self job id reason_code now db).0
  run (expire_call batch_size now ∷ cs) db =
      run cs (expire_due_clarifications p self now batch_size db).0

  ask_checked-OneOpen :
      (c c' : AnalysisClarification) (now : ℕ) (db db' : ClarificationTables)
      → ask_checked p self c now db ≡ ok (db', c')
      → OneOpen db
      → OneOpen db'
  unfolding ask_checked
  ask_checked-OneOpen c c' now db db' e h =
      let (j, k, e₁) = bind-ok (found _ _) _ (db', c') e in
      let (u, allowed, asked) = then-ok (check_transition _ _) (ask p self c now db) (db', c') e₁ in
      let rows = ask-rows p self c c' now db db' asked in
      ask-OneOpen c now db db' j (found-ok _ _ j k) allowed rows.0 rows.1 h

  require-OneOpen :
      (id job : ℕ) (code prompt_key question : List ℕ) (schema : Fields)
      (attempt_number ttl now : ℕ) (db : ClarificationTables)
      → OneOpen db
      → OneOpen
          (require_clarification p self id job code prompt_key question schema attempt_number ttl
            now db).0
  unfolding require_clarification
  require-OneOpen id job code prompt_key question schema attempt_number ttl now db h =
      let c =
        new_clarification p self id job code prompt_key question schema attempt_number ttl now in
      transact-ind OneOpen db (ask_checked p self c now db) h
        (λ db' c' e. ask_checked-OneOpen c c' now db db' e h)

  accept_checked-OneOpen :
      (j j' : AnalysisJob) (c : AnalysisClarification) (payload : Fields)
      (attempt_id plan_id now : ℕ) (db db' : ClarificationTables)
      → accept_checked p self j c payload attempt_id plan_id now db ≡ ok (db', j')
      → first_where (is_clarification_of c.id j.id) db.clarifications ≡ some c
      → is_awaiting c.status ≡ true
      → OneOpen db
      → OneOpen db'
  unfolding answered is_open
  accept_checked-OneOpen j j' c payload attempt_id plan_id now db db' e found_c awaits h =
      let (payload', e') =
        accept_checked-ok p self j c payload attempt_id plan_id now db (db', j') e in
      let rows = accept-rows p self j j' c payload' attempt_id plan_id now db db' e' in
      accept-OneOpen c.id j.id now (answered p self payload' now) db db' c (λ i d. ground arith)
        found_c awaits rows.0 rows.1 h

  respond-OneOpen :
      (job id : ℕ) (payload : Fields) (attempt_id plan_id now : ℕ) (db : ClarificationTables)
      → OneOpen db
      → OneOpen (respond p self job id payload attempt_id plan_id now db).0
  unfolding respond accept_checked answered is_open lapse lapsed set_clarification is_terminal
  respond-OneOpen job id payload attempt_id plan_id now db h =
      elim (Result-cases (answerable p self job id db)) [
        | inr (x, k) ↦ rw (k, respond) h
        | inl ((j, c), k) ↦
            let (found_j, found_c, ok_j, ok_c) = answerable-ok p self job id db j c k in
            let same_j : j.id ≡ job =
              (==_iff j.id job).0 (first_where-passes (has_id job) db.jobs j found_j) in
            let same_c : c.id ≡ id =
              let passes =
                first_where-passes (is_clarification_of id job) db.clarifications c found_c in
              ground arith in
            let found_c' =
              subst (λ x. first_where (is_clarification_of x j.id) db.clarifications ≡ some c)
                (sym same_c)
                (subst (λ x. first_where (is_clarification_of id x) db.clarifications ≡ some c)
                  (sym same_j) found_c) in
            elim (Bool-cases (is_late now c.expires_at)) [
              | inl t ↦
                  rw (k, t, respond)
                    (close-OneOpen (λ i. record i { status = AnalysisJobStatus.expired })
                      (λ i. refl) (λ i. refl) j.id c.id lapsed db (lapse p self j c db)
                      (λ i d. ground arith) refl refl h)
              | inr f ↦
                  rw (k, f, respond)
                    (transact-ind OneOpen db
                      (accept_checked p self j c payload attempt_id plan_id now db) h
                      (λ db' j' e.
                        accept_checked-OneOpen j j' c payload attempt_id plan_id now db db' e
                          found_c' (answerable_clarification-is_awaiting p self c ok_c) h))
            ]
      ]

  withdraw_checked-OneOpen :
      (job id : ℕ) (reason_code : List ℕ) (now : ℕ) (db db' : ClarificationTables)
      (j' : AnalysisJob)
      → withdraw_checked p self job id reason_code now db ≡ ok (db', j')
      → OneOpen db
      → OneOpen db'
  unfolding withdrawn is_open is_terminal set_job_status set_clarification
  withdraw_checked-OneOpen job id reason_code now db db' j' e h =
      let (j, c, e₃) = withdraw_checked-ok p self job id reason_code now db (db', j') e in
      let rows = withdraw-rows p self j j' c reason_code now db db' e₃ in
      close-OneOpen (λ i. record i { status = AnalysisJobStatus.cancelled; updated_at = now })
        (λ i. refl) (λ i. refl) j.id c.id (withdrawn now) db db' (λ i d. ground arith) rows.0 rows.1
        h

  cancel-OneOpen :
      (job id : ℕ) (reason_code : List ℕ) (now : ℕ) (db : ClarificationTables)
      → OneOpen db
      → OneOpen (cancel p self job id reason_code now db).0
  unfolding cancel
  cancel-OneOpen job id reason_code now db h =
      transact-ind OneOpen db (withdraw_checked p self job id reason_code now db) h
        (λ db' j' e. withdraw_checked-OneOpen job id reason_code now db db' j' e h)

  run-OneOpen : (cs : List Call) (db : ClarificationTables) → OneOpen db → OneOpen (run cs db)
  unfolding run
  run-OneOpen [] db h = h
  run-OneOpen (require_call id job code prompt_key question schema attempt_number ttl now ∷ cs) db
        h =
      run-OneOpen cs _
        (require-OneOpen id job code prompt_key question schema attempt_number ttl now db h)
  run-OneOpen (respond_call job id payload attempt_id plan_id now ∷ cs) db h =
      run-OneOpen cs _ (respond-OneOpen job id payload attempt_id plan_id now db h)
  run-OneOpen (cancel_call job id reason_code now ∷ cs) db h =
      run-OneOpen cs _ (cancel-OneOpen job id reason_code now db h)
  run-OneOpen (expire_call batch_size now ∷ cs) db h =
      run-OneOpen cs _ (expire_due-OneOpen p self now batch_size db h)

-- A count of at most one leaves the query of `get_open_clarification` with at most one row.
one_row :
    (job : ℕ) (cs : List AnalysisClarification)
    → count (is_open job) cs ≤ 1
    → length (select (is_open job) cs) ≤ 1
one_row job cs h = rw (length-select (is_open job) cs) h
  where
    length-select :
        (q : AnalysisClarification → Bool) (cs : List AnalysisClarification)
        → length (select q cs) ≡ count q cs
    length-select q [] = refl
    length-select q (c ∷ cs) = ground (arith, length-select q cs)

at_most_one : (cs : List AnalysisClarification) → length cs ≤ 1 → scalar_one_or_none cs ≢ none
unfolding scalar_one_or_none
at_most_one [] h e = cc
at_most_one (c ∷ []) h e = cc
at_most_one (c ∷ d ∷ cs) h e = omega (arith, h)

-- Whatever calls of the service are made, errors among them, a job that is under way has no open
-- question and any other has at most one, so `get_open_clarification` never finds two rows and
-- raises. The tables at the start are such, as they are when they are empty.
pub get_open_clarification_total :
    (p : Platform) (self : ClarificationService) (calls : List Call) (db : ClarificationTables)
    (job : ℕ)
    → OneOpen db
    → OneOpen (run p self calls db) × (get_open_clarification job (run p self calls db) ≢ none)
unfolding get_open_clarification is_open
get_open_clarification_total p self calls db job h =
    let kept = run-OneOpen p self calls db h in
    let rows = (run p self calls db).clarifications in
    (
      kept,
      at_most_one (select (is_open job) rows) (
          one_row job rows (
            omega
              (arith, kept job, room-le (first_where (has_id job) (run p self calls db).jobs)))),
    )
