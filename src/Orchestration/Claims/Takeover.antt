-- ===== src/Orchestration/Claims/Takeover.antt =====
-- Who holds a job after it was taken over, whatever the workers call next
-- (services/api/alembic/versions/031_analysis_job_claim_authority.py).
use finance_intelligence.Orchestration.Claims.Fencing.{recover_inv}
use finance_intelligence.Orchestration.Store.Rows.{
  All, All-update_where, any-minimum-select, All-minimum, All-select,
}
use finance_intelligence.Orchestration.Claims.{
  ClaimTables, claim_next_analysis_job, is_fresh, is_renewable, is_stale,
  recover_next_stale_analysis_job, recovered, renew_analysis_job_lease, ClaimedAnalysisJob,
  is_unsafe_worker_id, is_older, lapsed_before, taken,
}
use finance_intelligence.Orchestration.Store.{
  AnalysisJob, has_id, is_held_by, update_where, is_active, minimum,
}
use finance_intelligence.Prelude.{
  Bool, Bool-cases, List, Option-cases, String, [], any, arith, eq_iff, false, inl, inr, not, ok,
  refl, select, some, true, ℕ, ◌&&◌, ◌==◌, ◌∙◌, ◌∷◌, ◌≡◌, ◌≢◌,
}
use finance_intelligence.Orchestration.Claims.Recovery.{
  claim, recover, renew, apply_all, apply, ClaimOp,
}

-- The row is held by the worker in an active status, and was recovered.
unfoldable is_kept : ℕ → ℕ → String → AnalysisJob → Bool
is_kept id token worker z = is_renewable id token worker z && not (z.recovery_count == 0)

-- Every row with the identifier of the job is kept, and there is one.
abbrev IsKept : ℕ → ℕ → String → List AnalysisJob → Type 0
IsKept id token worker jobs =
    All (λ z. (has_id id z && not (is_kept id token worker z)) ≡ false) jobs
    × (any (has_id id) jobs ≡ true)

any-update_where :
    (id : ℕ) (test : AnalysisJob → Bool) (f : AnalysisJob → AnalysisJob) (jobs : List AnalysisJob)
    → ((j : AnalysisJob) → (f j).id ≡ j.id)
    → any (has_id id) (update_where test f jobs) ≡ any (has_id id) jobs
any-update_where id test f [] k = refl
any-update_where id test f (j ∷ jobs) k =
    let rest = any-update_where id test f jobs k in ground (arith, k j)

module _ (id token : ℕ) (worker : String) where
  -- A row that a claim or a recovery may pick is another job's.
  fresh_is_other :
      (z : AnalysisJob)
      → (has_id id z && not (is_kept id token worker z)) ≡ false
      → is_fresh z ≡ true
      → has_id id z ≡ false
  unfolding is_kept is_fresh is_renewable is_held_by
  fresh_is_other z h k = elim (Option-cases z.claim_token) [
    | inl n ↦ let h' = rw n at h in ground arith
    | inr (t, n) ↦ let k' = rw n at k in ground arith
  ]

  stale_is_other :
      (now : ℕ) (z : AnalysisJob)
      → (has_id id z && not (is_kept id token worker z)) ≡ false
      → is_stale now z ≡ true
      → has_id id z ≡ false
  unfolding is_kept is_stale
  stale_is_other now z h k = ground arith

  -- A taking of another job keeps the rows of this one.
  taking-IsKept :
      (picked : ℕ) (f : AnalysisJob → AnalysisJob) (jobs : List AnalysisJob)
      → ((j : AnalysisJob) → (f j).id ≡ j.id)
      → (picked == id) ≡ false
      → IsKept id token worker jobs
      → IsKept id token worker (update_where (has_id picked) f jobs)
  taking-IsKept picked f jobs same other h = (
    All-update_where (λ z. (has_id id z && not (is_kept id token worker z)) ≡ false)
        (λ z. (has_id id z && not (is_kept id token worker z)) ≡ false) (has_id picked) f jobs
        (λ j t p. let s = same j in ground arith) (λ j t p. p) h.0,
    any-update_where id (has_id picked) f jobs same ∙ h.1,
  )

  claim-IsKept :
      (other : String) (other_token now : ℕ) (db : ClaimTables)
      → IsKept id token worker db.jobs
      → IsKept id token worker (claim_next_analysis_job other other_token now db).0.jobs
  unfolding claim_next_analysis_job
  claim-IsKept other other_token now db h = elim (Bool-cases (is_unsafe_worker_id other)) [
    | inl u ↦ rw u h
    | inr safe ↦ elim (Option-cases (minimum is_older (select is_fresh db.jobs))) [
      | inl k ↦ rw (safe, k) h
      | inr (j, k) ↦
          let (kept, fresh) =
            All-minimum _ is_older (select is_fresh db.jobs) j
              (All-select (λ z. (has_id id z && not (is_kept id token worker z)) ≡ false) is_fresh
                db.jobs h.0)
              k in
          rw (safe, k)
            (taking-IsKept j.id (taken other other_token now) db.jobs (λ z. unfold taken in refl)
              (fresh_is_other j kept fresh) h)
    ]
  ]

  recover-IsKept :
      (other : String) (other_token now : ℕ) (db : ClaimTables)
      → IsKept id token worker db.jobs
      → IsKept id token worker (recover_next_stale_analysis_job other other_token now db).0.jobs
  unfolding recover_next_stale_analysis_job
  recover-IsKept other other_token now db h = elim (Bool-cases (is_unsafe_worker_id other)) [
    | inl u ↦ rw u h
    | inr safe ↦ elim (Option-cases (minimum lapsed_before (select (is_stale now) db.jobs))) [
      | inl k ↦ rw (safe, k) h
      | inr (j, k) ↦
          let (kept, stale) =
            All-minimum _ lapsed_before (select (is_stale now) db.jobs) j
              (All-select (λ z. (has_id id z && not (is_kept id token worker z)) ≡ false)
                (is_stale now) db.jobs h.0)
              k in
          rw (safe, k)
            (taking-IsKept j.id (recovered other other_token now) db.jobs
              (λ z. unfold recovered in refl) (stale_is_other now j kept stale) h)
    ]
  ]

  renew-IsKept :
      (job other_token : ℕ) (other : String) (now : ℕ) (db : ClaimTables)
      → IsKept id token worker db.jobs
      → IsKept id token worker (renew_analysis_job_lease job other_token other now db).0.jobs
  unfolding renew_analysis_job_lease is_kept is_renewable is_held_by
  renew-IsKept job other_token other now db h = elim (Bool-cases (is_unsafe_worker_id other)) [
    | inl u ↦ rw u h
    | inr safe ↦ rw safe (
      All-update_where (λ z. (has_id id z && not (is_kept id token worker z)) ≡ false)
          (λ z. (has_id id z && not (is_kept id token worker z)) ≡ false)
          (is_renewable job other_token other) _ db.jobs (λ z t p. p) (λ z t p. p) h.0,
      any-update_where id (is_renewable job other_token other) _ db.jobs (λ z. refl) ∙ h.1,
    )
  ]

  apply_all-IsKept :
      (ops : List ClaimOp) (db : ClaimTables)
      → IsKept id token worker db.jobs
      → IsKept id token worker (apply_all ops db).jobs
  unfolding apply_all apply
  apply_all-IsKept [] db h = h
  apply_all-IsKept (claim w t n ∷ ops) db h =
      apply_all-IsKept ops (apply (claim w t n) db) (claim-IsKept w t n db h)
  apply_all-IsKept (recover w t n ∷ ops) db h =
      apply_all-IsKept ops (apply (recover w t n) db) (recover-IsKept w t n db h)
  apply_all-IsKept (renew j t w n ∷ ops) db h =
      apply_all-IsKept ops (apply (renew j t w n) db) (renew-IsKept j t w n db h)

  -- What is kept can be renewed by its holder and by nobody else.
  kept-is_renewable :
      (jobs : List AnalysisJob)
      → IsKept id token worker jobs
      → any (is_renewable id token worker) jobs ≡ true
  unfolding is_kept
  kept-is_renewable [] h = cc (h.1)
  kept-is_renewable (j ∷ jobs) h = elim (Bool-cases (has_id id j)) [
    | inl t ↦ ground (arith, h.0.0)
    | inr n ↦ let rest = kept-is_renewable jobs (h.0.1, ground (arith, h.1)) in ground arith
  ]

  kept-other_token :
      (other_token : ℕ) (other : String) (jobs : List AnalysisJob)
      → other_token ≢ token
      → All (λ z. (has_id id z && not (is_kept id token worker z)) ≡ false) jobs
      → any (is_renewable id other_token other) jobs ≡ false
  unfolding is_kept is_renewable is_held_by
  kept-other_token other_token other [] n h = refl
  kept-other_token other_token other (j ∷ jobs) n h =
      let rest = kept-other_token other_token other jobs n h.1 in
      let here : is_renewable id other_token other j ≡ false = elim (Option-cases j.claim_token) [
        | inl e ↦ rw e (ground arith)
        | inr (t, e) ↦ let h' = rw e at h.0 in rw e (ground arith)
      ] in
      ground arith

recovered-is_kept :
    (worker : String) (token now id : ℕ) (jobs : List AnalysisJob)
    → All
        (λ z. (has_id id z && not (is_kept id token worker z)) ≡ false)
        (update_where (has_id id) (recovered worker token now) jobs)
unfolding recovered is_kept is_renewable is_held_by is_active
recovered-is_kept worker token now id [] = tt
recovered-is_kept worker token now id (j ∷ jobs) =
    (ground (arith, eq_iff worker worker), recovered-is_kept worker token now id jobs)

recover-starts :
    (worker : String) (token now : ℕ) (db db' : ClaimTables) (c : ClaimedAnalysisJob)
    → recover_next_stale_analysis_job worker token now db ≡ (db', ok (some c))
    → IsKept c.job_id token worker db'.jobs × (is_unsafe_worker_id worker ≡ false)
recover-starts worker token now db db' c e =
    let (j, k, same, jobs, safe) = recover_inv worker token now db db' c e in
    rw (same, jobs)
      (
        (
          recovered-is_kept worker token now j.id db.jobs,
          any-update_where j.id (has_id j.id) (recovered worker token now) db.jobs
                (λ z. unfold recovered in refl)
              ∙ any-minimum-select lapsed_before (is_stale now) (has_id j.id) db.jobs j k
                  (ground arith),
        ),
        safe,
      )

-- When a job is taken over from a worker whose lease has lapsed, then after any further claims,
-- recoveries and renewals, of any workers at any times, the new worker can renew the lease of the
-- job, and no renewal by another token succeeds, whatever worker asks.
pub recover_fences_out :
    (worker other : String) (token stale_token now later : ℕ) (db db' : ClaimTables)
    (c : ClaimedAnalysisJob) (ops : List ClaimOp)
    → recover_next_stale_analysis_job worker token now db ≡ (db', ok (some c))
    → stale_token ≢ token
    → ((renew_analysis_job_lease c.job_id token worker later (apply_all ops db')).1 ≡ true)
      × ((renew_analysis_job_lease c.job_id stale_token other later (apply_all ops db')).1 ≡ false)
unfolding renew_analysis_job_lease
recover_fences_out worker other token stale_token now later db db' c ops e n =
    let (start, safe) = recover-starts worker token now db db' c e in
    let kept = apply_all-IsKept c.job_id token worker ops db' start in
    (
      rw safe (kept-is_renewable c.job_id token worker (apply_all ops db').jobs kept),
      ground (
        arith,
        kept-other_token c.job_id token worker stale_token other (apply_all ops db').jobs n kept.0,
      ),
    )
