-- ===== src/Orchestration/Clarification/Writes.antt =====
-- What the calls of services/api/app/services/clarification_service.py write to the jobs and to the
-- clarifications when they succeed.

use finance_intelligence.Orchestration.Clarification.Response.{accepted_payload}
use finance_intelligence.Orchestration.Store.{AnalysisJob, first_where, has_id}
use finance_intelligence.Orchestration.Clarification.Expiry.{notify}
use finance_intelligence.Orchestration.StateMachine.{AnalysisJobStatus}
use finance_intelligence.Orchestration.Clarification.Service.{
  ask, accept, withdraw, answered, withdrawn, publish, answerable, is_clarification_of,
  answerable_job, answerable_clarification, accept_checked, withdraw_checked, creator_only,
}
use finance_intelligence.Prelude.{
  Result-cases, String, inl, inr, none, ok, ℕ, ◌≡◌, [], ◌++◌, ◌∷◌, ap, bind-ok, ok-injective, ◌∙◌,
  List, sym, then-ok, ◌>>◌, Option, some, arith, true, ◌>>=◌, Result, err, refl,
}
use finance_intelligence.Orchestration.EventEngine.{emit_event}
use finance_intelligence.Audit.{Fields}
use finance_intelligence.Orchestration.Clarification.{
  Platform, emit, ClarificationTables, audit, set_job_status, ClarificationService,
  AnalysisClarification, set_clarification, ClarificationError, found, is_awaiting, is_waiting,
  analysis_not_found, clarification_not_found, transact,
}

-- Two databases with the same jobs and the same clarifications.
abbrev pub SameRows : ClarificationTables → ClarificationTables → Type 0
SameRows db db' = (db'.jobs ≡ db.jobs) × (db'.clarifications ≡ db.clarifications)

pub emit-SameRows :
    (p : Platform) (organization job : ℕ) (event_type : String) (payload : Fields)
    (db db' : ClarificationTables)
    → emit p organization job event_type payload db ≡ ok db'
    → SameRows db db'
unfolding emit
emit-SameRows p organization job event_type payload db db' e =
    elim (Result-cases
      (emit_event organization job none event_type (p.dumps payload) db.events).1) [
        | inl (_, k) ↦ let q = rw (k, emit) at e in (cc, cc)
        | inr (_, k) ↦ cc (rw (k, emit) at e)
      ]

-- The rows after a question was asked.
pub ask-rows :
    (p : Platform) (self : ClarificationService) (c c' : AnalysisClarification) (now : ℕ)
    (db db' : ClarificationTables)
    → ask p self c now db ≡ ok (db', c')
    → (db'.jobs
        ≡ (set_job_status c.analysis_job_id AnalysisJobStatus.needs_clarification now db).jobs)
      × (db'.clarifications ≡ db.clarifications ++ c ∷ [])
unfolding ask audit set_job_status
ask-rows p self c c' now db db' e =
    let (db'', k, q) = bind-ok _ _ (db', c') e in
    let same = emit-SameRows p self.organization_id c.analysis_job_id _ _ _ db'' k in
    (
      sym (ap (λ r. r.0.jobs) (ok-injective q)) ∙ same.0,
      sym (ap (λ r. r.0.clarifications) (ok-injective q)) ∙ same.1,
    )

pub publish-SameRows :
    (p : Platform) (self : ClarificationService) (c : AnalysisClarification) (job number : ℕ)
    (db db' : ClarificationTables)
    → publish p self c job number db ≡ ok db'
    → SameRows db db'
unfolding publish audit
publish-SameRows p self c job number db db' e =
    let (db₁, k₁, e₁) = bind-ok _ _ db' e in
    let (db₂, k₂, q) = bind-ok _ _ db' e₁ in
    let same₁ = emit-SameRows p self.organization_id job _ _ db db₁ k₁ in
    let same₂ = emit-SameRows p self.organization_id job _ _ db₁ db₂ k₂ in
    (
      sym (ap (λ r. r.jobs) (ok-injective q)) ∙ same₂.0 ∙ same₁.0,
      sym (ap (λ r. r.clarifications) (ok-injective q)) ∙ same₂.1 ∙ same₁.1,
    )

-- The rows after an answer was accepted, and the job that is returned.
pub accept-rows :
    (p : Platform) (self : ClarificationService) (j j' : AnalysisJob) (c : AnalysisClarification)
    (payload : Fields) (attempt_id plan_id now : ℕ) (db db' : ClarificationTables)
    → accept p self j c payload attempt_id plan_id now db ≡ ok (db', j')
    → (db'.jobs ≡ (set_job_status j.id AnalysisJobStatus.understanding_request now db).jobs)
      × (db'.clarifications
          ≡ (set_clarification c.id (answered p self payload now) db).clarifications)
unfolding accept set_job_status set_clarification
accept-rows p self j j' c payload attempt_id plan_id now db db' e =
    let (db₂, e₁, q) = bind-ok (_ >> publish p self c j.id _ _) _ (db', j') e in
    let (u, allowed, k) = then-ok _ (publish p self c j.id _ _) db₂ e₁ in
    let same = publish-SameRows p self c j.id _ _ db₂ k in
    (
      sym (ap (λ r. r.0.jobs) (ok-injective q)) ∙ same.0,
      sym (ap (λ r. r.0.clarifications) (ok-injective q)) ∙ same.1,
    )

-- The rows after a question was withdrawn.
pub withdraw-rows :
    (p : Platform) (self : ClarificationService) (j j' : AnalysisJob) (c : AnalysisClarification)
    (reason_code : List ℕ) (now : ℕ) (db db' : ClarificationTables)
    → withdraw p self j c reason_code now db ≡ ok (db', j')
    → (db'.jobs ≡ (set_job_status j.id AnalysisJobStatus.cancelled now db).jobs)
      × (db'.clarifications ≡ (set_clarification c.id (withdrawn now) db).clarifications)
unfolding withdraw audit set_job_status set_clarification
withdraw-rows p self j j' c reason_code now db db' e =
    let (u, allowed, q) = then-ok _ (ok _) (db', j') e in
    (sym (ap (λ r. r.0.jobs) (ok-injective q)), sym (ap (λ r. r.0.clarifications) (ok-injective q)))

pub notify-SameRows :
    (p : Platform) (self : ClarificationService) (now : ℕ) (c : AnalysisClarification)
    (db db' : ClarificationTables)
    → notify p self now c db ≡ ok db'
    → SameRows db db'
unfolding notify audit
notify-SameRows p self now c db db' e =
    let (db'', k, q) = bind-ok _ _ db' e in
    let same = emit-SameRows p c.organization_id c.analysis_job_id _ _ db db'' k in
    (
      sym (ap (λ r. r.jobs) (ok-injective q)) ∙ same.0,
      sym (ap (λ r. r.clarifications) (ok-injective q)) ∙ same.1,
    )

pub found-ok {ℓ} :
    {A : Type ℓ} (e : ClarificationError) (o : Option A) (a : A) → found e o ≡ ok a → o ≡ some a
found-ok e none a h = cc
found-ok e (some b) a h = cc

-- What the checks of `respond` have found where they raise nothing.
pub answerable-ok :
    (p : Platform) (self : ClarificationService) (job id : ℕ) (db : ClarificationTables)
    (j : AnalysisJob) (c : AnalysisClarification)
    → answerable p self job id db ≡ ok (j, c)
    → (first_where (has_id job) db.jobs ≡ some j)
      × (first_where (is_clarification_of id job) db.clarifications ≡ some c)
      × (answerable_job p self j ≡ ok tt)
      × (answerable_clarification p self c ≡ ok tt)
unfolding answerable
answerable-ok p self job id db j c e =
    let (j', k₁, e₁) = bind-ok (found _ _) _ (j, c) e in
    let (u, k₂, e₂) = then-ok (answerable_job p self j') _ (j, c) e₁ in
    let (c', k₃, e₃) = bind-ok (found _ _) _ (j, c) e₂ in
    let (v, k₄, q) = then-ok (answerable_clarification p self c') (ok _) (j, c) e₃ in
    let same_j = ap (λ r. r.0) (ok-injective q) in
    let same_c = ap (λ r. r.1) (ok-injective q) in
    (
      found-ok _ _ j' k₁ ∙ ap some same_j,
      found-ok _ _ c' k₃ ∙ ap some same_c,
      ap (answerable_job p self) (sym same_j) ∙ k₂,
      ap (answerable_clarification p self) (sym same_c) ∙ k₄,
    )

pub answerable_clarification-is_awaiting :
    (p : Platform) (self : ClarificationService) (c : AnalysisClarification)
    → answerable_clarification p self c ≡ ok tt
    → is_awaiting c.status ≡ true
unfolding answerable_clarification
answerable_clarification-is_awaiting p self c e = ground arith

pub answerable_job-ok :
    (p : Platform) (self : ClarificationService) (j : AnalysisJob)
    → answerable_job p self j ≡ ok tt
    → (j.user_id ≡ self.user_id) × (is_waiting j.status ≡ true)
unfolding answerable_job
answerable_job-ok p self j e = (ground arith, ground arith)

pub accept_checked-ok :
    (p : Platform) (self : ClarificationService) (j : AnalysisJob) (c : AnalysisClarification)
    (payload : Fields) (attempt_id plan_id now : ℕ) (db : ClarificationTables)
    (r : ClarificationTables × AnalysisJob)
    → accept_checked p self j c payload attempt_id plan_id now db ≡ ok r
    → (payload' : Fields) × (accept p self j c payload' attempt_id plan_id now db ≡ ok r)
unfolding accept_checked
accept_checked-ok p self j c payload attempt_id plan_id now db r e =
    let (payload', _, e') =
      bind-ok (accepted_payload p db c.clarification_code payload)
        (λ q. accept p self j c q attempt_id plan_id now db) r e in
    (payload', e')

pub withdraw_checked-ok :
    (p : Platform) (self : ClarificationService) (job id : ℕ) (reason_code : List ℕ) (now : ℕ)
    (db : ClarificationTables) (r : ClarificationTables × AnalysisJob)
    → withdraw_checked p self job id reason_code now db ≡ ok r
    → (j : AnalysisJob) × (c : AnalysisClarification) × (withdraw p self j c reason_code now db
        ≡ ok r)
unfolding withdraw_checked
withdraw_checked-ok p self job id reason_code now db r e =
    let (j, k₁, e₁) =
      bind-ok (found analysis_not_found (first_where (has_id job) db.jobs))
        (λ j.
          creator_only p self j
          >> (found clarification_not_found
                (first_where (is_clarification_of id job) db.clarifications)
              >>= λ c. withdraw p self j c reason_code now db))
        r e in
    let (u, k₂, e₂) = then-ok (creator_only p self j) _ r e₁ in
    let (c, k₃, e₃) = bind-ok (found _ _) (λ c. withdraw p self j c reason_code now db) r e₂ in
    (j, c, e₃)

-- The outcome of a transaction has what the tables had before, or what a success gives them.
pub transact-ind {ℓ κ} :
    {A : Type ℓ} (Q : ClarificationTables → Type κ) (db : ClarificationTables)
    (r : Result ClarificationError (ClarificationTables × A))
    → Q db
    → ((db' : ClarificationTables) (a : A) → r ≡ ok (db', a) → Q db')
    → Q (transact db r).0
unfolding transact
transact-ind Q db (ok (db', a)) h k = k db' a refl
transact-ind Q db (err e) h k = h
