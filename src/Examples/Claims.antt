-- ===== src/Examples/Claims.antt =====
-- services/api/alembic/versions/031_analysis_job_claim_authority.py: two waiting jobs, two workers.

use mathlib.Core.List.{Memᴰ}
use finance_intelligence.Prelude.{
  List, [], arith, false, none, ok, refl, some, true, ℕ, ◌&&◌, ◌∷◌, ◌≡◌, ◌≢◌,
}
use finance_intelligence.Orchestration.StateMachine.{received}
use finance_intelligence.Orchestration.Store.Rows.{All}
use finance_intelligence.Orchestration.Claims.Recovery.{
  renew, apply, ClaimOp, claim, recovered_once, apply_all,
}
use finance_intelligence.Orchestration.Claims.Takeover.{recover_fences_out}
use finance_intelligence.Orchestration.Claims.Queue.{claim_is_fifo}
use finance_intelligence.Orchestration.Store.{AnalysisJob}
use finance_intelligence.Orchestration.Claims.{
  is_older, renew_analysis_job_lease, ClaimTables, recover_next_stale_analysis_job, is_stale,
  lapsed_before, claim_next_analysis_job, is_unsafe_worker_id, is_fresh, ClaimedAnalysisJob,
}

abbrev waiting : ℕ → ℕ → AnalysisJob
waiting id created_at = record {
  id = id;
  organization_id = 1;
  user_id = 1;
  status = received;
  locked_by = none;
  locked_at = none;
  lease_expires_at = none;
  claim_token = none;
  recovery_count = 0;
  created_at = created_at;
  updated_at = created_at;
}

abbrev tables : ClaimTables
tables = record { jobs = waiting 3 20 ∷ waiting 4 10 ∷ []; attempts = [] }

-- The state after the first claim, which takes the older job.
abbrev after : ClaimTables
after = (claim_next_analysis_job "w1" 901 100 tables).0

abbrev first : ClaimedAnalysisJob
first = record { job_id = 4; organization_id = 1; claim_token = 901 }

abbrev second : ClaimedAnalysisJob
second = record { job_id = 3; organization_id = 1; claim_token = 902 }

claims_older : claim_next_analysis_job "w1" 901 100 tables ≡ (after, ok (some first))
unfolding claim_next_analysis_job is_unsafe_worker_id is_fresh is_older
claims_older = refl

claims_younger :
    claim_next_analysis_job "w2" 902 101 after
    ≡ ((claim_next_analysis_job "w2" 902 101 after).0, ok (some second))
unfolding claim_next_analysis_job is_unsafe_worker_id is_fresh is_older
claims_younger = refl

claim_is_fifo_example :
    (j : AnalysisJob) × (4 ≡ j.id)
    × Memᴰ j tables.jobs
    × (is_fresh j ≡ true)
    × All (λ z. (is_fresh z && is_older z j) ≡ false) tables.jobs
claim_is_fifo_example = claim_is_fifo "w1" 901 100 tables after first claims_older

-- The lease of the first claim lapses, and another worker takes the job over.
abbrev taken_over : ClaimedAnalysisJob
taken_over = record { job_id = 4; organization_id = 1; claim_token = 903 }

abbrev recovered_tables : ClaimTables
recovered_tables = (recover_next_stale_analysis_job "w2" 903 5000 after).0

recovers :
    recover_next_stale_analysis_job "w2" 903 5000 after ≡ (recovered_tables, ok (some taken_over))
unfolding recover_next_stale_analysis_job claim_next_analysis_job is_unsafe_worker_id is_fresh
    is_older is_stale lapsed_before
recovers = refl

-- The other job is claimed, its lease lapses too, and it is the one that is recovered next.
abbrev others : List ClaimOp
others = claim "w1" 904 5002 ∷ renew 4 903 "w2" 5003 ∷ []

recover_fences_out_example :
    ((renew_analysis_job_lease 4 903 "w2" 5004 (apply_all others recovered_tables)).1 ≡ true)
    × ((renew_analysis_job_lease 4 901 "w1" 5004 (apply_all others recovered_tables)).1 ≡ false)
recover_fences_out_example =
    recover_fences_out "w2" "w1" 903 901 5000 5004 after recovered_tables taken_over others recovers
      (omega arith)

abbrev other_job : ClaimedAnalysisJob
other_job = record { job_id = 3; organization_id = 1; claim_token = 905 }

recovers_other :
    recover_next_stale_analysis_job "w3" 905 9000 (apply_all others recovered_tables) ≡ (
      (recover_next_stale_analysis_job "w3" 905 9000 (apply_all others recovered_tables)).0,
      ok (some other_job),
    )
unfolding recover_next_stale_analysis_job claim_next_analysis_job is_unsafe_worker_id is_fresh
    is_older is_stale lapsed_before apply_all apply renew_analysis_job_lease
recovers_other = refl

recovered_once_example : other_job.job_id ≢ taken_over.job_id
recovered_once_example =
    recovered_once "w2" "w3" 903 905 5000 9000 after recovered_tables _ taken_over other_job others
      recovers recovers_other
