-- ===== src/Orchestration/Clarification/Questions.antt =====
-- How many questions of one analysis are open at a time
-- (services/api/app/services/clarification_service.py).
use mathlib.Core.Option
use finance_intelligence.Prelude.{
  Bool, Bool-cases, List, Option, [], arith, false, if◌then◌else◌, inl, inr, none, some, true, ℕ,
  ◌&&◌, ◌++◌, ◌+◌, ◌==◌, ◌||◌, ◌∷◌, ◌≡◌, ◌≤◌,
}
use finance_intelligence.Orchestration.Clarification.Service.{is_clarification_of}
use finance_intelligence.Orchestration.Clarification.{
  is_awaiting, AnalysisClarification, has_clarification_id, ClarificationTables, is_waiting,
}
use finance_intelligence.Orchestration.StateMachine.{is_terminal}
use finance_intelligence.Orchestration.Store.{has_id, AnalysisJob, update_where, first_where}

unfoldable pub is_open : ℕ → AnalysisClarification → Bool
unfolding is_awaiting
is_open job c = c.analysis_job_id == job && is_awaiting c.status

abbrev pub count {ℓ} : {A : Type ℓ} → (A → Bool) → List A → ℕ
count test [] = 0
count test (x ∷ xs) = (if test x then 1 else 0) + count test xs

-- How many open questions the status of a job leaves room for; a job that is over may have left one.
unfoldable pub room : Option AnalysisJob → ℕ
unfolding is_waiting
room none = 1
room (some j) = if is_terminal j.status || is_waiting j.status then 1 else 0

-- At most one question of each job is open, and none while the job is under way.
abbrev pub OneOpen : ClarificationTables → Type 0
OneOpen db =
    (job : ℕ) → count (is_open job) db.clarifications ≤ room (first_where (has_id job) db.jobs)

-- A job is read back after an update of one job.
pub find_updated :
    (id job : ℕ) (f : AnalysisJob → AnalysisJob) (jobs : List AnalysisJob)
    → ((j : AnalysisJob) → (f j).id ≡ j.id)
    → first_where (has_id job) (update_where (has_id id) f jobs) ≡ (
        if id == job
        then Option.map f (first_where (has_id job) jobs)
        else first_where (has_id job) jobs)
find_updated id job f [] k = ground arith
find_updated id job f (j ∷ jobs) k = let rest = find_updated id job f jobs k in ground (arith, k j)

pub count-append :
    (test : AnalysisClarification → Bool) (xs : List AnalysisClarification)
    (x : AnalysisClarification)
    → count test (xs ++ x ∷ []) ≡ count test xs + (if test x then 1 else 0)
count-append test [] x = omega arith
count-append test (y ∷ xs) x = omega (arith, count-append test xs x)

-- Closing a question opens none, and closing an open one leaves one less.
module _ (f : AnalysisClarification → AnalysisClarification)
    (closes : (job : ℕ) (c : AnalysisClarification) → is_open job (f c) ≡ false) where
  pub count-close :
      (id job : ℕ) (cs : List AnalysisClarification)
      → count (is_open job) (update_where (has_clarification_id id) f cs) ≤ count (is_open job) cs
  count-close id job [] = omega arith
  count-close id job (c ∷ cs) = elim (Bool-cases (has_clarification_id id c)) [
    | inl t ↦ rw (t, closes job c) (omega (arith, count-close id job cs))
    | inr n ↦ rw n (omega (arith, count-close id job cs))
  ]

  pub count-close_open :
      (id job : ℕ) (cs : List AnalysisClarification) (c : AnalysisClarification)
      → first_where (is_clarification_of id job) cs ≡ some c
      → is_awaiting c.status ≡ true
      → count (is_open job) (update_where (has_clarification_id id) f cs) + 1
        ≤ count (is_open job) cs
  unfolding is_open
  count-close_open id job [] c e a = cc
  count-close_open id job (d ∷ cs) c e a = elim (Bool-cases (is_clarification_of id job d)) [
    | inl t ↦
        let q : d ≡ c = cc (rw t at e) in
        let a' : is_awaiting d.status ≡ true = rw q a in
        let o : is_open job d ≡ true = ground arith in
        let h : has_clarification_id id d ≡ true = ground arith in
        rw (h, closes job d, o) (omega (arith, count-close id job cs))
    | inr n ↦ elim (Bool-cases (has_clarification_id id d)) [
      | inl t ↦ rw (t, closes job d) (omega (arith, count-close_open id job cs c (rw n at e) a))
      | inr u ↦ rw u (omega (arith, count-close_open id job cs c (rw n at e) a))
    ]
  ]
