-- ===== src/Orchestration/Worker/Heartbeat.antt =====
-- When the heartbeat of services/worker/app/analysis_worker.py stops the engine.
use finance_intelligence.Orchestration.Claims.Takeover.{recover_fences_out}
use finance_intelligence.Orchestration.Claims.Recovery.{ClaimOp, apply_all}
use finance_intelligence.Orchestration.Store.Rows.{update_where-none}
use finance_intelligence.Prelude.{
  Bool-cases, List, String, [], any, false, inl, inr, refl, some, ℕ, ◌+◌, ◌∷◌, ◌≡◌, arith, ok, true,
  ◌∙◌, ◌≢◌, not, ◌&&◌, ◌++◌,
}
use finance_intelligence.Orchestration.Store.Rows.{All}
use finance_intelligence.Orchestration.Claims.{
  ClaimTables, is_renewable, lease_seconds, renew_analysis_job_lease, ClaimedAnalysisJob,
  is_unsafe_worker_id, recover_next_stale_analysis_job,
}
use finance_intelligence.Orchestration.Store.{AnalysisJob, is_held_by, update_where, is_number}
use finance_intelligence.Orchestration.Worker.{
  Pulse, lease_heartbeat_loop, renewal, AnalysisWorker, beating, engine_cancelled,
}

-- Pulses while nobody else touches the tables, the sessions work and the engine runs.
abbrev pub IsQuiet : List Pulse → Type 0
IsQuiet ps =
    All
      (λ p.
        ((db : ClaimTables) → p.others db ≡ db)
        × (p.raises ≡ false)
        × (p.done_before ≡ false)
        × (p.done_after ≡ false))
      ps

-- Renewing a lease keeps it renewable.
renewed_stays :
    (job token now : ℕ) (worker : String) (jobs : List AnalysisJob)
    → any (is_renewable job token worker) (
        update_where
          (is_renewable job token worker)
          (λ j. record j { lease_expires_at = some (now + lease_seconds); updated_at = now })
          jobs)
      ≡ any (is_renewable job token worker) jobs
unfolding is_renewable is_held_by
renewed_stays job token now worker [] = refl
renewed_stays job token now worker (j ∷ jobs) =
    ground (arith, renewed_stays job token now worker jobs)

-- The worker holds the job, and every row by which it does has a lease of the full length from a
-- time on.
abbrev pub IsLeased : ℕ → ℕ → String → ℕ → List AnalysisJob → Type 0
IsLeased job token worker now jobs =
    (any (is_renewable job token worker) jobs ≡ true)
    × All
        (λ z.
          (is_renewable job token worker z
            && not (is_number z.lease_expires_at (now + lease_seconds)))
          ≡ false)
        jobs

renewed_leased :
    (job token now : ℕ) (worker : String) (jobs : List AnalysisJob)
    → All
        (λ z.
          (is_renewable job token worker z
            && not (is_number z.lease_expires_at (now + lease_seconds)))
          ≡ false)
        (update_where
          (is_renewable job token worker)
          (λ j. record j { lease_expires_at = some (now + lease_seconds); updated_at = now })
          jobs)
renewed_leased job token now worker [] = tt
renewed_leased job token now worker (j ∷ jobs) =
    elim (Bool-cases (is_renewable job token worker j)) [
      | inl t ↦ rw t (ground arith, renewed_leased job token now worker jobs)
      | inr f ↦ rw f (rw f refl, renewed_leased job token now worker jobs)
    ]

-- A quiet pulse renews the lease.
renewal-IsLeased :
    (self : AnalysisWorker) (job token : ℕ) (p : Pulse) (db : ClaimTables)
    → is_unsafe_worker_id self.worker_id ≡ false
    → any (is_renewable job token self.worker_id) db.jobs ≡ true
    → p.raises ≡ false
    → ((renewal self job token p db).1 ≡ true)
      × IsLeased job token self.worker_id p.now (renewal self job token p db).0.jobs
unfolding renewal renew_analysis_job_lease
renewal-IsLeased self job token p db safe held works =
    rw (works, safe)
      (
        held,
        (
          renewed_stays job token p.now self.worker_id db.jobs ∙ held,
          renewed_leased job token p.now self.worker_id db.jobs,
        ),
      )

-- A worker that is left alone keeps its job: on any pulses in which nobody else touches the tables,
-- no session raises and the engine runs, the heartbeat of a worker that holds the job in an active
-- status does not cancel the engine, and after the last of them the worker holds the job with a
-- lease of the full length from the time of that pulse.
pub heartbeat_survives :
    (self : AnalysisWorker) (job token : ℕ) (ps : List Pulse) (p : Pulse) (db : ClaimTables)
    → is_unsafe_worker_id self.worker_id ≡ false
    → any (is_renewable job token self.worker_id) db.jobs ≡ true
    → IsQuiet (ps ++ p ∷ [])
    → let (after, how) = lease_heartbeat_loop self job token (ps ++ p ∷ []) db in
      (how ≡ beating) × IsLeased job token self.worker_id p.now after.jobs
unfolding lease_heartbeat_loop
heartbeat_survives self job token [] p db safe held quiet =
    let (alone, works, before, after) = quiet.0 in
    let (renewed, leased) = renewal-IsLeased self job token p db safe held works in
    rw (before, after, alone db, renewed) (refl, leased)
heartbeat_survives self job token (q ∷ ps) p db safe held quiet =
    let (alone, works, before, after) = quiet.0 in
    let (renewed, leased) = renewal-IsLeased self job token q db safe held works in
    rw (before, after, alone db, renewed)
      (heartbeat_survives self job token ps p (renewal self job token q db).0 safe leased.0 quiet.1)

-- A renewal that fails writes nothing.
renew-lost :
    (job token now : ℕ) (worker : String) (db : ClaimTables)
    → (renew_analysis_job_lease job token worker now db).1 ≡ false
    → renew_analysis_job_lease job token worker now db ≡ (db, false)
unfolding renew_analysis_job_lease
renew-lost job token now worker db h = elim (Bool-cases (is_unsafe_worker_id worker)) [
  | inl t ↦ rw t refl
  | inr f ↦
      let none_held : any (is_renewable job token worker) db.jobs ≡ false = rw f at h in
      let same =
        update_where-none (is_renewable job token worker)
          (λ j. record j { lease_expires_at = some (now + lease_seconds); updated_at = now })
          db.jobs none_held in
      rw (f, same, none_held) refl
]

-- A worker that has lost its job is stopped: when another worker has recovered the job, and whatever
-- claims, recoveries and renewals have followed by the next pulse, then that pulse, if the engine
-- still runs at it, cancels the engine and writes nothing to the tables.
pub recovered_job_is_cancelled :
    (self : AnalysisWorker) (other : String) (token stale_token now : ℕ) (p : Pulse)
    (ps : List Pulse) (db before after : ClaimTables) (c : ClaimedAnalysisJob) (ops : List ClaimOp)
    → recover_next_stale_analysis_job other token now before ≡ (after, ok (some c))
    → p.others db ≡ apply_all ops after
    → stale_token ≢ token
    → p.done_before ≡ false
    → p.done_after ≡ false
    → lease_heartbeat_loop self c.job_id stale_token (p ∷ ps) db
      ≡ (apply_all ops after, engine_cancelled)
unfolding lease_heartbeat_loop renewal
recovered_job_is_cancelled self other token stale_token now p ps db before after c ops e others n
      runs still =
    let tables = apply_all ops after in
    let (_, lost) =
      recover_fences_out other self.worker_id token stale_token now p.now before after c ops e n in
    elim (Bool-cases p.raises) [
      | inl t ↦ rw (runs, still, others, t) refl
      | inr f ↦
          let whole = renew-lost c.job_id stale_token p.now self.worker_id tables lost in
          rw (runs, still, others, f, whole) refl
    ]
