-- ===== src/Facts/Calls.antt =====
-- What the calls of services/api/app/services/financial_fact_service.py do to the facts and to the
-- candidates, as step relations.

use finance_intelligence.Facts.Writes.{
  is_candidate, is_active_of, mark_conflicted, key_of, mark_approved, mark_rejected, is_in_force,
  same_key, closed,
}
use finance_intelligence.Orchestration.Store.{is_null, update_where, first_where}
use finance_intelligence.Facts.Review.{
  Reviewing, approve_candidate, approve_candidate_as_revision, reject_candidate,
}
use finance_intelligence.Prelude.{
  Bool, List, Result, [], err, is_ok, ok, ℕ, ◌++◌, ◌∷◌, ◌≡◌, false, true, select, some,
}
use finance_intelligence.Facts.{
  FinancialFactCandidate, FinancialFact, FactTables, ReviewError, FactPlatform, eq_int,
}

pub data Call : Type 0 where
  approve : Reviewing → Call
  revise : ℕ → Reviewing → Call
  reject : List ℕ → Reviewing → Call

-- The arguments of a call.
abbrev pub reviewing : Call → Reviewing
reviewing (approve q) = q
reviewing (revise expected q) = q
reviewing (reject reason q) = q

-- What a call returned, without the row.
unfoldable pub returned {ℓ} :
    {A : Type ℓ} → FactTables × Result ReviewError A → FactTables × Result ReviewError (Unit {0})
returned (db, ok a) = (db, ok tt)
returned (db, err e) = (db, err e)

module _ (p : FactPlatform) where
  unfoldable pub call : Call → FactTables → FactTables × Result ReviewError (Unit {0})
  unfolding returned
  call (approve q) db = returned (approve_candidate p q db)
  call (revise expected q) db = returned (approve_candidate_as_revision p q expected db)
  call (reject reason q) db = returned (reject_candidate p q reason db)

  -- The calls one after the other; an error leaves the next call to its own.
  unfoldable pub call_all : List Call → FactTables → FactTables
  unfolding call
  call_all [] db = db
  call_all (q ∷ qs) db = call_all qs (call q db).0

-- What a call may do to the facts: nothing, add the first fact in force of its key, or close the
-- fact in force that is named and add its successor, with the same key and another value.
pub data FactsStep : List FinancialFact → List FinancialFact → Type 0 where
  stays : {fs : List FinancialFact} → FactsStep fs fs
  publishes :
      {fs : List FinancialFact} (f : FinancialFact)
      → is_null f.valid_to ≡ true
      → select (is_active_of (key_of f)) fs ≡ []
      → FactsStep fs (fs ++ f ∷ [])
  supersedes :
      {fs : List FinancialFact} (id organization now : ℕ) (old f : FinancialFact)
      → is_null f.valid_to ≡ true
      → first_where (is_in_force id organization) fs ≡ some old
      → same_key (key_of f) (key_of old) ≡ true
      → eq_int old.normalized_value f.normalized_value ≡ false
      → FactsStep fs (update_where (is_in_force id organization) (closed now) fs ++ f ∷ [])

-- What a call may do to the candidates, and whether it returns.
pub data CandidatesStep (id organization : ℕ)
    : List FinancialFactCandidate → List FinancialFactCandidate → Bool → Type 0 where
  refuses : {cs : List FinancialFactCandidate} → CandidatesStep id organization cs cs false
  conflicts :
      {cs : List FinancialFactCandidate} (p : FactPlatform) (f : FinancialFact) (now : ℕ)
      → CandidatesStep id organization cs
          (update_where (is_candidate id organization) (mark_conflicted p f now) cs)
          false
  approves :
      {cs : List FinancialFactCandidate} (basis : List ℕ)
      → CandidatesStep id organization cs
          (update_where (is_candidate id organization) (mark_approved basis) cs)
          true
  rejects :
      {cs : List FinancialFactCandidate}
      → CandidatesStep id organization cs
          (update_where (is_candidate id organization) mark_rejected cs)
          true

-- The two at once.
abbrev pub Effect : Reviewing → FactTables → FactTables × Result ReviewError (Unit {0}) → Type 0
Effect q db r =
    FactsStep db.facts r.0.facts
    × CandidatesStep q.candidate_id q.organization_id db.candidates r.0.candidates (is_ok r.1)
