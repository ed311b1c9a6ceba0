-- ===== src/Orchestration/Engine/Rows.antt =====
-- The one row of the job among the rows of a table, and what the statements of the engine do to it.
use finance_intelligence.Prelude.{
  ◌≡◌, refl, ap, ◌∙◌, Bool, true, List, [], ◌∷◌, any, select, ℕ, arith,
}
use finance_intelligence.Orchestration.Store.{AnalysisJob, update_where, first_where, has_id}
use finance_intelligence.Orchestration.Store.Rows.{select-passes}
use finance_intelligence.Orchestration.Engine.{EngineTables}

module _ {ℓ} {A : Type ℓ} (p : A → Bool) where
  -- An update that keeps the key commutes with a selection by it.
  pub select-update_where :
      (test : A → Bool) (f : A → A) (xs : List A)
      → ((y : A) → p (f y) ≡ p y)
      → select p (update_where test f xs) ≡ update_where test f (select p xs)
  select-update_where test f [] keep = refl
  select-update_where test f (y ∷ ys) keep =
      ground (arith, keep y, select-update_where test f ys keep)

  -- A row that only a selected row can be is looked for among those.
  pub any-select :
      (test : A → Bool) (xs : List A)
      → ((y : A) → test y ≡ true → p y ≡ true)
      → any test xs ≡ any test (select p xs)
  any-select test [] only = refl
  any-select test (y ∷ ys) only = ground (arith, only y, any-select test ys only)

  pub first_where-select :
      (test : A → Bool) (xs : List A)
      → ((y : A) → test y ≡ true → p y ≡ true)
      → first_where test xs ≡ first_where test (select p xs)
  first_where-select test [] only = refl
  first_where-select test (y ∷ ys) only = ground (arith, only y, first_where-select test ys only)

-- The table has one row with the identifier, as its primary key says, and `R` holds of it.
pub record Sees (id : ℕ) (R : AnalysisJob → Type 0) (t : EngineTables) : Type 0 where
  pub row : AnalysisJob
  pub only : select (has_id id) t.rows.jobs ≡ row ∷ []
  pub holds : R row

module _ {id : ℕ} {R R' : AnalysisJob → Type 0} {t : EngineTables} where
  pub Sees-mono : Sees id R t → ((j : AnalysisJob) → R j → R' j) → Sees id R' t
  Sees-mono v f = record { row = v.row; only = v.only; holds = f v.row v.holds }

module _ {id : ℕ} {R : AnalysisJob → Type 0} {t t' : EngineTables} where
  pub Sees-same : Sees id R t → t'.rows.jobs ≡ t.rows.jobs → Sees id R t'
  Sees-same v e = record { row = v.row; only = rw e (v.only); holds = v.holds }

  -- An update that finds the row changes it.
  pub Sees-update :
      {R' : AnalysisJob → Type 0} (test : AnalysisJob → Bool) (f : AnalysisJob → AnalysisJob)
      → Sees id R t
      → t'.rows.jobs ≡ update_where test f t.rows.jobs
      → ((j : AnalysisJob) → has_id id (f j) ≡ has_id id j)
      → ((j : AnalysisJob) → R j → has_id id j ≡ true → (test j ≡ true) × R' (f j))
      → Sees id R' t'
  Sees-update {R'} test f v e keep step =
      let at = row_has_id in
      let (hit, after) = step v.row v.holds at in
      record {
        row = f v.row;
        only =
            rw e (select-update_where (has_id id) test f t.rows.jobs keep)
            ∙ (ap (update_where test f) v.only ∙ changed hit);
        holds = after;
      }
    where
      changed : test v.row ≡ true → update_where test f (v.row ∷ []) ≡ f v.row ∷ []
      changed hit = rw hit refl

      row_has_id : has_id id v.row ≡ true
      row_has_id = let h = select-passes (has_id id) t.rows.jobs in (rw (v.only) at h).0
