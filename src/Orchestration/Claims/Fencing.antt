-- ===== src/Orchestration/Claims/Fencing.antt =====
-- Who holds a job after it was taken.
use finance_intelligence.Orchestration.Store.Rows.{any-minimum-select}
use finance_intelligence.Prelude.{
  String, ℕ, List, arith, ◌≡◌, any, eq_iff, true, ◌≢◌, false, ◌∷◌, [], ok, some, Bool-cases, Bool,
  Option-cases, inl, inr, refl, select,
}
use finance_intelligence.Orchestration.Store.{
  AnalysisJob, is_held_by, has_id, update_where, is_active,
}
use finance_intelligence.Orchestration.Claims.{
  taken, recovered, is_renewable, ClaimTables, claim_next_analysis_job, renew_analysis_job_lease,
  ClaimedAnalysisJob, is_unsafe_worker_id, is_older, minimum, recover_next_stale_analysis_job,
  is_fresh, lapsed_before, is_stale,
}

-- What a taking writes to its row: the new token and holder, in an active status.
record Takes (worker : String) (token : ℕ) (f : AnalysisJob → AnalysisJob) : Type 0 where
  at : (j : AnalysisJob) (id : ℕ) → j.id ≡ id → is_renewable id token worker (f j) ≡ true
  others : (j : AnalysisJob) (id t : ℕ) (w : String) → t ≢ token → is_held_by id t w (f j) ≡ false

taken-Takes : (worker : String) (token now : ℕ) → Takes worker token (taken worker token now)
unfolding taken is_renewable is_held_by is_active
taken-Takes worker token now = record {
  at = λ j id e. ground (arith, eq_iff worker worker);
  others = λ j id t w n. ground arith;
}

recovered-Takes :
    (worker : String) (token now : ℕ) → Takes worker token (recovered worker token now)
unfolding recovered is_renewable is_held_by is_active
recovered-Takes worker token now = record {
  at = λ j id e. ground (arith, eq_iff worker worker);
  others = λ j id t w n. ground arith;
}

module _ (worker : String) (token : ℕ) (f : AnalysisJob → AnalysisJob)
    (takes : Takes worker token f) where
  -- Every row with the id of the job that was taken is held by the taker, and by nobody else.
  nobody_else :
      (id t : ℕ) (w : String) (jobs : List AnalysisJob)
      → t ≢ token
      → any (is_held_by id t w) (update_where (has_id id) f jobs) ≡ false
  unfolding is_held_by
  nobody_else id t w [] n = refl
  nobody_else id t w (j ∷ jobs) n =
      ground (arith, takes.others j id t w n, nobody_else id t w jobs n)

  taker_holds :
      (id : ℕ) (jobs : List AnalysisJob)
      → any (has_id id) jobs ≡ true
      → any (is_renewable id token worker) (update_where (has_id id) f jobs) ≡ true
  taker_holds id [] h = cc
  taker_holds id (j ∷ jobs) h = ground (arith, takes.at j id, taker_holds id jobs)

-- What holds of a job after a taking: its taker can renew the lease, and no other token is held.
abbrev pub IsFencedFor : String → ℕ → ℕ → ClaimTables → Type 0
IsFencedFor worker token id db =
    (any (is_renewable id token worker) db.jobs ≡ true)
    × ((t : ℕ) (w : String) → t ≢ token → any (is_held_by id t w) db.jobs ≡ false)

-- A claim that returns a job has rewritten the row that it picked.
pub claim_inv :
    (worker : String) (token now : ℕ) (db db' : ClaimTables) (c : ClaimedAnalysisJob)
    → claim_next_analysis_job worker token now db ≡ (db', ok (some c))
    → (j : AnalysisJob) × (minimum is_older (select is_fresh db.jobs) ≡ some j)
      × (c.job_id ≡ j.id)
      × (db'.jobs ≡ update_where (has_id j.id) (taken worker token now) db.jobs)
      × (is_unsafe_worker_id worker ≡ false)
unfolding claim_next_analysis_job
claim_inv worker token now db db' c e = elim (Bool-cases (is_unsafe_worker_id worker)) [
  | inl u ↦ absurd (ground arith)
  | inr safe ↦ elim (Option-cases (minimum is_older (select is_fresh db.jobs))) [
    | inl k ↦ absurd (ground arith)
    | inr (j, k) ↦ (j, k, ground arith, ground arith, safe)
  ]
]

pub recover_inv :
    (worker : String) (token now : ℕ) (db db' : ClaimTables) (c : ClaimedAnalysisJob)
    → recover_next_stale_analysis_job worker token now db ≡ (db', ok (some c))
    → (j : AnalysisJob) × (minimum lapsed_before (select (is_stale now) db.jobs) ≡ some j)
      × (c.job_id ≡ j.id)
      × (db'.jobs ≡ update_where (has_id j.id) (recovered worker token now) db.jobs)
      × (is_unsafe_worker_id worker ≡ false)
unfolding recover_next_stale_analysis_job
recover_inv worker token now db db' c e = elim (Bool-cases (is_unsafe_worker_id worker)) [
  | inl u ↦ absurd (ground arith)
  | inr safe ↦ elim (Option-cases (minimum lapsed_before (select (is_stale now) db.jobs))) [
    | inl k ↦ absurd (ground arith)
    | inr (j, k) ↦ (j, k, ground arith, ground arith, safe)
  ]
]

fenced_after :
    (worker : String) (token : ℕ) (f : AnalysisJob → AnalysisJob)
    (before : AnalysisJob → AnalysisJob → Bool) (p : AnalysisJob → Bool) (jobs : List AnalysisJob)
    (j : AnalysisJob) (db' : ClaimTables)
    → Takes worker token f
    → minimum before (select p jobs) ≡ some j
    → db'.jobs ≡ update_where (has_id j.id) f jobs
    → IsFencedFor worker token j.id db'
fenced_after worker token f before p jobs j db' takes k e = rw e (
  taker_holds worker token f takes j.id jobs
      (any-minimum-select before p (has_id j.id) jobs j k (ground arith)),
  λ t w n. nobody_else worker token f takes j.id t w jobs n,
)

claim-IsFencedFor :
    (worker : String) (token now : ℕ) (db db' : ClaimTables) (c : ClaimedAnalysisJob)
    → claim_next_analysis_job worker token now db ≡ (db', ok (some c))
    → IsFencedFor worker token c.job_id db'
claim-IsFencedFor worker token now db db' c e =
    let (j, k, same, jobs, safe) = claim_inv worker token now db db' c e in
    rw same (
      fenced_after worker token (taken worker token now) is_older is_fresh db.jobs j db'
        (taken-Takes worker token now) k jobs)

pub recover-IsFencedFor :
    (worker : String) (token now : ℕ) (db db' : ClaimTables) (c : ClaimedAnalysisJob)
    → recover_next_stale_analysis_job worker token now db ≡ (db', ok (some c))
    → IsFencedFor worker token c.job_id db'
recover-IsFencedFor worker token now db db' c e =
    let (j, k, same, jobs, safe) = recover_inv worker token now db db' c e in
    rw same (
      fenced_after worker token (recovered worker token now) lapsed_before (is_stale now) db.jobs j
        db' (recovered-Takes worker token now) k jobs)

pub not_held-not_renewable :
    (id t : ℕ) (w : String) (jobs : List AnalysisJob)
    → any (is_held_by id t w) jobs ≡ false
    → any (is_renewable id t w) jobs ≡ false
unfolding is_renewable
not_held-not_renewable id t w [] h = refl
not_held-not_renewable id t w (j ∷ jobs) h = ground (arith, not_held-not_renewable id t w jobs)

-- After a fresh claim its worker can renew the lease, and no other token can.
claim_fences_out :
    (worker other : String) (token other_token now later : ℕ) (db db' : ClaimTables)
    (c : ClaimedAnalysisJob)
    → claim_next_analysis_job worker token now db ≡ (db', ok (some c))
    → other_token ≢ token
    → ((renew_analysis_job_lease c.job_id token worker later db').1 ≡ true)
      × ((renew_analysis_job_lease c.job_id other_token other later db').1 ≡ false)
unfolding renew_analysis_job_lease
claim_fences_out worker other token other_token now later db db' c e n =
    let (holds, nobody) = claim-IsFencedFor worker token now db db' c e in
    let (j, k, same, jobs, safe) = claim_inv worker token now db db' c e in
    (
      rw safe holds,
      ground (
        arith,
        not_held-not_renewable c.job_id other_token other db'.jobs (nobody other_token other n),
      ),
    )
