-- ===== src/Orchestration/Claims/Queue.antt =====
-- Which job is taken, and how often a job can be.
use mathlib.Core.Path.{subst}
use mathlib.Core.List.{Memᴰ}
use finance_intelligence.Prelude.{
  Bool-cases, List, Option, String, [], arith, false, inl, inr, none, ok, refl, select, some, true,
  ℕ, ◌&&◌, ◌∷◌, ◌≡◌, ◌≢◌, ◌≤◌, Bool,
}
use finance_intelligence.Orchestration.Store.{AnalysisJob, has_id, update_where, minimum, choose}
use finance_intelligence.Orchestration.Store.Rows.{
  select-All, All, All-select, All-minimum, All-map, picked_passes,
}
use finance_intelligence.Orchestration.Claims.{
  ClaimTables, ClaimedAnalysisJob, is_fresh, is_older, taken, claim_next_analysis_job,
}
use finance_intelligence.Orchestration.Claims.Fencing.{claim_inv}

-- `is_older` is a strict order of the rows.
is_older_asym : (a b : AnalysisJob) → is_older a b ≡ true → is_older b a ≡ false
unfolding is_older
is_older_asym a b h = ground arith

is_older_irrefl : (a : AnalysisJob) → is_older a a ≡ false
unfolding is_older
is_older_irrefl a = ground arith

is_older_trans :
    (a b c : AnalysisJob) → is_older b a ≡ false → is_older c b ≡ false → is_older c a ≡ false
unfolding is_older
is_older_trans a b c h k = ground arith

choose-younger : (x y : AnalysisJob) → is_older y x ≡ true → y ≡ choose is_older x (some y)
choose-younger x y h = rw h

choose-older : (x y : AnalysisJob) → is_older y x ≡ false → x ≡ choose is_older x (some y)
choose-older x y h = rw h

not_older_than_choice :
    (x : AnalysisJob) (xs : List AnalysisJob) (o : Option AnalysisJob)
    → ((y : AnalysisJob) → o ≡ some y → All (λ z. is_older z y ≡ false) xs)
    → (o ≡ none → xs ≡ [])
    → All (λ z. is_older z (choose is_older x o) ≡ false) (x ∷ xs)
not_older_than_choice x xs none h k = rw (k refl) (is_older_irrefl x, tt)
not_older_than_choice x xs (some y) h k = elim (Bool-cases (is_older y x)) [
  | inl t ↦ rest (choose-younger x y t) (is_older_asym y x t, h y refl)
  | inr f ↦ rest (choose-older x y f) (
    is_older_irrefl x,
    All-map (λ z. is_older z y ≡ false) (λ z. is_older z x ≡ false) xs
        (λ z q. is_older_trans x y z f q) (h y refl),
  )
]
  where
    rest :
        {w : AnalysisJob}
        → w ≡ choose is_older x (some y)
        → All (λ z. is_older z w ≡ false) (x ∷ xs)
        → All (λ z. is_older z (choose is_older x (some y)) ≡ false) (x ∷ xs)
    rest q h = subst (λ w. All (λ z. is_older z w ≡ false) (x ∷ xs)) q h

minimum-none : (xs : List AnalysisJob) → minimum is_older xs ≡ none → xs ≡ []
minimum-none [] h = refl
minimum-none (x ∷ xs) h = cc

-- No row is older than the one that is picked.
minimum-oldest :
    (xs : List AnalysisJob) (y : AnalysisJob)
    → minimum is_older xs ≡ some y
    → All (λ z. is_older z y ≡ false) xs
minimum-oldest [] y h = tt
minimum-oldest (x ∷ xs) y h =
    let q : choose is_older x (minimum is_older xs) ≡ y = cc in
    subst (λ w. All (λ z. is_older z w ≡ false) (x ∷ xs)) q
      (not_older_than_choice x xs (minimum is_older xs) (minimum-oldest xs) (minimum-none xs))

-- Every row of a table is in it.
members : (xs : List AnalysisJob) → All (λ z. Memᴰ z xs) xs
members [] = tt
members (x ∷ xs) = (Memᴰ.head refl, All-map _ _ xs (λ z m. Memᴰ.tail m) (members xs))

picked_row :
    (p : AnalysisJob → Bool) (xs : List AnalysisJob) (j : AnalysisJob)
    → minimum is_older (select p xs) ≡ some j
    → Memᴰ j xs
picked_row p xs j e =
    (All-minimum (λ z. Memᴰ z xs × (p z ≡ true)) is_older (select p xs) j
      (All-select (λ z. Memᴰ z xs) p xs (members xs)) e).0

-- Jobs are claimed first come, first served: the job that is returned is a row of the table that
-- was waiting, and no row that was waiting is older.
pub claim_is_fifo :
    (worker : String) (token now : ℕ) (db db' : ClaimTables) (c : ClaimedAnalysisJob)
    → claim_next_analysis_job worker token now db ≡ (db', ok (some c))
    → (j : AnalysisJob) × (c.job_id ≡ j.id)
      × Memᴰ j db.jobs
      × (is_fresh j ≡ true)
      × All (λ z. (is_fresh z && is_older z j) ≡ false) db.jobs
claim_is_fifo worker token now db db' c e =
    let (j, k, same, jobs, safe) = claim_inv worker token now db db' c e in
    (
      j,
      same,
      picked_row is_fresh db.jobs j k,
      picked_passes is_fresh is_older db.jobs j k,
      select-All is_fresh (λ z. is_older z j) db.jobs
          (minimum-oldest (select is_fresh db.jobs) j k),
    )

not_fresh_after :
    (worker : String) (token now id : ℕ) (jobs : List AnalysisJob)
    → All
        (λ z. (has_id id z && is_fresh z) ≡ false)
        (update_where (has_id id) (taken worker token now) jobs)
unfolding is_fresh taken
not_fresh_after worker token now id [] = tt
not_fresh_after worker token now id (j ∷ jobs) =
    (ground arith, not_fresh_after worker token now id jobs)

-- A job that was claimed is not waiting any more, so the next claim returns another.
claims_differ :
    (worker other : String) (token other_token now later : ℕ) (db db' db'' : ClaimTables)
    (c c' : ClaimedAnalysisJob)
    → claim_next_analysis_job worker token now db ≡ (db', ok (some c))
    → claim_next_analysis_job other other_token later db' ≡ (db'', ok (some c'))
    → c'.job_id ≢ c.job_id
claims_differ worker other token other_token now later db db' db'' c c' e e' q =
    let (j, k, same, jobs, safe) = claim_inv worker token now db db' c e in
    let (j', k', same', jobs', safe') = claim_inv other other_token later db' db'' c' e' in
    let gone : All (λ z. (has_id j.id z && is_fresh z) ≡ false) db'.jobs =
      rw jobs (not_fresh_after worker token now j.id db.jobs) in
    let (busy, waiting) =
      All-minimum (λ z. ((has_id j.id z && is_fresh z) ≡ false) × (is_fresh z ≡ true)) is_older
        (select is_fresh db'.jobs) j'
        (All-select (λ z. (has_id j.id z && is_fresh z) ≡ false) is_fresh db'.jobs gone) k' in
    ground arith

-- The `CHECK (recovery_count BETWEEN 0 AND 1)` of the table.
abbrev pub RecoveredOnce : ClaimTables → Type 0
RecoveredOnce db = All (λ j. j.recovery_count ≤ 1) db.jobs
