-- ===== src/Orchestration/Claims/Recovery.antt =====
-- A job is recovered once at the most, whatever the workers do in between.

-- A call of one of the three functions.
use finance_intelligence.Prelude.{
  Bool, Bool-cases, List, Option-cases, String, [], arith, false, inl, inr, ok, select, some, true,
  ℕ, ◌&&◌, ◌==◌, ◌∷◌, ◌≡◌, ◌≢◌,
}
use finance_intelligence.Orchestration.Claims.Fencing.{recover_inv}
use finance_intelligence.Orchestration.Store.{has_id, AnalysisJob, minimum, update_where}
use finance_intelligence.Orchestration.Claims.{
  ClaimTables, renew_analysis_job_lease, is_renewable, is_fresh, is_older, ClaimedAnalysisJob,
  taken, claim_next_analysis_job, is_stale, lapsed_before, is_unsafe_worker_id, recovered,
  recover_next_stale_analysis_job,
}
use finance_intelligence.Orchestration.Store.Rows.{All-minimum, All-update_where, All-select, All}

pub data ClaimOp : Type 0 where
  claim : String → ℕ → ℕ → ClaimOp
  recover : String → ℕ → ℕ → ClaimOp
  renew : ℕ → ℕ → String → ℕ → ClaimOp

unfoldable pub apply : ClaimOp → ClaimTables → ClaimTables
apply (claim worker token now) db = (claim_next_analysis_job worker token now db).0
apply (recover worker token now) db = (recover_next_stale_analysis_job worker token now db).0
apply (renew id token worker now) db = (renew_analysis_job_lease id token worker now db).0

unfoldable pub apply_all : List ClaimOp → ClaimTables → ClaimTables
apply_all [] db = db
apply_all (op ∷ ops) db = apply_all ops (apply op db)

-- The job has been recovered.
abbrev is_unspent : ℕ → AnalysisJob → Bool
is_unspent id z = has_id id z && z.recovery_count == 0

abbrev IsSpent : ℕ → List AnalysisJob → Type 0
IsSpent id jobs = All (λ z. is_unspent id z ≡ false) jobs

keeps_IsSpent :
    (id : ℕ) (test : AnalysisJob → Bool) (f : AnalysisJob → AnalysisJob) (jobs : List AnalysisJob)
    → ((j : AnalysisJob) → is_unspent id j ≡ false → is_unspent id (f j) ≡ false)
    → IsSpent id jobs
    → IsSpent id (update_where test f jobs)
keeps_IsSpent id test f jobs keep h =
    All-update_where (λ z. is_unspent id z ≡ false) (λ z. is_unspent id z ≡ false) test f jobs
      (λ j t p. keep j p) (λ j t p. p) h

claim_keeps :
    (id : ℕ) (worker : String) (token now : ℕ) (db : ClaimTables)
    → IsSpent id db.jobs
    → IsSpent id (claim_next_analysis_job worker token now db).0.jobs
unfolding claim_next_analysis_job
claim_keeps id worker token now db h = elim (Bool-cases (is_unsafe_worker_id worker)) [
  | inl u ↦ rw u h
  | inr safe ↦ elim (Option-cases (minimum is_older (select is_fresh db.jobs))) [
    | inl k ↦ rw (safe, k) h
    | inr (j, k) ↦
        rw (safe, k)
          (keeps_IsSpent id (has_id j.id) (taken worker token now) db.jobs
            (λ z p. unfold taken in p) h)
  ]
]

recover_keeps :
    (id : ℕ) (worker : String) (token now : ℕ) (db : ClaimTables)
    → IsSpent id db.jobs
    → IsSpent id (recover_next_stale_analysis_job worker token now db).0.jobs
unfolding recover_next_stale_analysis_job
recover_keeps id worker token now db h = elim (Bool-cases (is_unsafe_worker_id worker)) [
  | inl u ↦ rw u h
  | inr safe ↦ elim (Option-cases (minimum lapsed_before (select (is_stale now) db.jobs))) [
    | inl k ↦ rw (safe, k) h
    | inr (j, k) ↦
        rw (safe, k)
          (keeps_IsSpent id (has_id j.id) (recovered worker token now) db.jobs
            (λ z p. unfold recovered in ground arith) h)
  ]
]

renew_keeps :
    (id job token : ℕ) (worker : String) (now : ℕ) (db : ClaimTables)
    → IsSpent id db.jobs
    → IsSpent id (renew_analysis_job_lease job token worker now db).0.jobs
unfolding renew_analysis_job_lease
renew_keeps id job token worker now db h = elim (Bool-cases (is_unsafe_worker_id worker)) [
  | inl u ↦ rw u h
  | inr safe ↦ rw safe (keeps_IsSpent id (is_renewable job token worker) _ db.jobs (λ z p. p) h)
]

apply_all_keeps :
    (id : ℕ) (ops : List ClaimOp) (db : ClaimTables)
    → IsSpent id db.jobs
    → IsSpent id (apply_all ops db).jobs
unfolding apply_all apply
apply_all_keeps id [] db h = h
apply_all_keeps id (claim w t n ∷ ops) db h =
    apply_all_keeps id ops (apply (claim w t n) db) (claim_keeps id w t n db h)
apply_all_keeps id (recover w t n ∷ ops) db h =
    apply_all_keeps id ops (apply (recover w t n) db) (recover_keeps id w t n db h)
apply_all_keeps id (renew j t w n ∷ ops) db h =
    apply_all_keeps id ops (apply (renew j t w n) db) (renew_keeps id j t w n db h)

IsSpent-after :
    (worker : String) (token now id : ℕ) (jobs : List AnalysisJob)
    → IsSpent id (update_where (has_id id) (recovered worker token now) jobs)
unfolding recovered
IsSpent-after worker token now id [] = tt
IsSpent-after worker token now id (j ∷ jobs) =
    (ground arith, IsSpent-after worker token now id jobs)

stale_unspent : (now : ℕ) (j : AnalysisJob) → is_stale now j ≡ true → (j.recovery_count == 0) ≡ true
unfolding is_stale
stale_unspent now j h = ground arith

-- After a job has been recovered, and whatever claims, recoveries and renewals follow, no recovery
-- returns the same job again.
pub recovered_once :
    (worker other : String) (token other_token now later : ℕ) (db db' db'' : ClaimTables)
    (c c' : ClaimedAnalysisJob) (ops : List ClaimOp)
    → recover_next_stale_analysis_job worker token now db ≡ (db', ok (some c))
    → recover_next_stale_analysis_job other other_token later (apply_all ops db')
      ≡ (db'', ok (some c'))
    → c'.job_id ≢ c.job_id
recovered_once worker other token other_token now later db db' db'' c c' ops e e' q =
    let (j, k, same, jobs, safe) = recover_inv worker token now db db' c e in
    let (j', k', same', jobs', safe') =
      recover_inv other other_token later (apply_all ops db') db'' c' e' in
    let spent : IsSpent j.id (apply_all ops db').jobs =
      apply_all_keeps j.id ops db' (rw jobs (IsSpent-after worker token now j.id db.jobs)) in
    let (busy, stale) =
      All-minimum (λ z. (is_unspent j.id z ≡ false) × (is_stale later z ≡ true)) lapsed_before
        (select (is_stale later) (apply_all ops db').jobs) j'
        (All-select (λ z. is_unspent j.id z ≡ false) (is_stale later) (apply_all ops db').jobs
          spent)
        k' in
    ground (arith, stale_unspent later j')
