-- ===== src/Facts/Reviewed.antt =====
-- A candidate is reviewed once.
use finance_intelligence.Orchestration.Store.Counting.{first_where-elsewhere, first_where-updated}
use mathlib.Core.Path.{subst}
use finance_intelligence.Facts.Effects.{call-Effect}
use finance_intelligence.Facts.Review.{
  approve_candidate, approve_candidate_as_revision, reject_candidate, finish,
}
use finance_intelligence.Facts.Writes.{
  is_candidate, is_pending, mark_approved, is_conflicted, mark_rejected, mark_conflicted,
}
use finance_intelligence.Orchestration.Store.{first_where}
use finance_intelligence.Prelude.{
  Bool, Bool-cases, List, Option-cases, [], arith, err, false, inl, inr, is_ok, none, ok, refl,
  some, sym, true, ℕ, ◌&&◌, ◌==◌, ◌∙◌, ◌∷◌, ◌≡◌,
}
use finance_intelligence.Facts.{FinancialFactCandidate, FactTables, ReviewError, FactPlatform}
use finance_intelligence.Facts.Calls.{
  approve, revise, reject, refuses, conflicts, approves, rejects, Call, call, call_all, returned,
  reviewing, CandidatesStep,
}

-- The candidate is there, and no call may decide about it any more.
abbrev pub IsReviewed : ℕ → ℕ → List FinancialFactCandidate → Type 0
IsReviewed id organization cs =
    (c : FinancialFactCandidate) × (first_where (is_candidate id organization) cs ≡ some c)
    × (is_pending c.review_status ≡ false)
    × (is_conflicted c.validation_status ≡ false)

abbrev names : Call → ℕ → ℕ → Bool
names q id organization =
    (reviewing q).candidate_id == id && (reviewing q).organization_id == organization

refused :
    (p : FactPlatform) (q : Call) (db : FactTables)
    → IsReviewed (reviewing q).candidate_id (reviewing q).organization_id db.candidates
    → call p q db ≡ (db, err ReviewError.candidate_already_reviewed)
unfolding call returned approve_candidate approve_candidate_as_revision reject_candidate finish
refused p (approve q) db (c, e, r, v) = rw (e, r) refl
refused p (revise expected q) db (c, e, r, v) = rw (e, r, v) refl
refused p (reject reason q) db (c, e, r, v) = rw (e, r) refl

not_there :
    (p : FactPlatform) (q : Call) (db : FactTables)
    → first_where
        (is_candidate (reviewing q).candidate_id (reviewing q).organization_id)
        db.candidates
      ≡ none
    → call p q db ≡ (db, err ReviewError.candidate_not_found)
unfolding call returned approve_candidate approve_candidate_as_revision reject_candidate finish
not_there p (approve q) db e = rw e refl
not_there p (revise expected q) db e = rw e refl
not_there p (reject reason q) db e = rw e refl

-- A call that returns has decided.
returns-IsReviewed :
    (id organization : ℕ) (cs cs' : List FinancialFactCandidate) (b : Bool)
    (c : FinancialFactCandidate)
    → CandidatesStep id organization cs cs' b
    → b ≡ true
    → first_where (is_candidate id organization) cs ≡ some c
    → IsReviewed id organization cs'
unfolding is_candidate mark_approved mark_rejected is_pending is_conflicted
returns-IsReviewed id organization cs cs' b c refuses t e = cc
returns-IsReviewed id organization cs cs' b c (conflicts p f now) t e = cc
returns-IsReviewed id organization cs cs' b c (approves basis) t e = (
  mark_approved basis c,
  first_where-updated (is_candidate id organization) (mark_approved basis) cs c (λ x. refl) e,
  refl,
  refl,
)
returns-IsReviewed id organization cs cs' b c rejects t e = (
  mark_rejected c,
  first_where-updated (is_candidate id organization) mark_rejected cs c (λ x. refl) e,
  refl,
  refl,
)

call-IsReviewed :
    (p : FactPlatform) (q : Call) (db db' : FactTables)
    → call p q db ≡ (db', ok tt)
    → IsReviewed (reviewing q).candidate_id (reviewing q).organization_id db'.candidates
call-IsReviewed p q db db' h = elim (Option-cases (first_where (is_candidate i o) db.candidates)) [
  | inl n ↦ cc (not_there p q db n)
  | inr (c, e) ↦
      let s = (call-Effect p q db).1 in
      let s' : CandidatesStep i o db.candidates db'.candidates true =
        subst (λ r. CandidatesStep i o db.candidates r.0.candidates (is_ok r.1)) h s in
      returns-IsReviewed i o db.candidates db'.candidates true c s' refl e
]
  where
    i : ℕ
    i = (reviewing q).candidate_id

    o : ℕ
    o = (reviewing q).organization_id

-- A call about another candidate finds this one as it was.
elsewhere :
    (id organization id' organization' : ℕ) (cs cs' : List FinancialFactCandidate) (b : Bool)
    → (id == id' && organization == organization') ≡ false
    → CandidatesStep id organization cs cs' b
    → first_where (is_candidate id' organization') cs'
      ≡ first_where (is_candidate id' organization') cs
unfolding is_candidate mark_approved mark_rejected mark_conflicted
elsewhere id organization id' organization' cs cs' b d refuses = refl
elsewhere id organization id' organization' cs cs' b d (conflicts p f now) =
    first_where-elsewhere _ _ (mark_conflicted p f now) cs (λ x. refl) (λ x t. ground arith)
elsewhere id organization id' organization' cs cs' b d (approves basis) =
    first_where-elsewhere _ _ (mark_approved basis) cs (λ x. refl) (λ x t. ground arith)
elsewhere id organization id' organization' cs cs' b d rejects =
    first_where-elsewhere _ _ mark_rejected cs (λ x. refl) (λ x t. ground arith)

stays-IsReviewed :
    (p : FactPlatform) (q : Call) (db : FactTables) (id organization : ℕ)
    → IsReviewed id organization db.candidates
    → IsReviewed id organization (call p q db).0.candidates
stays-IsReviewed p q db id organization w = elim (Bool-cases (names q id organization)) [
  | inl t ↦
      let i : id ≡ (reviewing q).candidate_id = ground arith in
      let o : organization ≡ (reviewing q).organization_id = ground arith in
      let w' : IsReviewed (reviewing q).candidate_id (reviewing q).organization_id db.candidates =
        subst (λ n. IsReviewed (reviewing q).candidate_id n db.candidates) o
          (subst (λ n. IsReviewed n organization db.candidates) i w) in
      rw (refused p q db w') w
  | inr f ↦
      let e =
        elsewhere (reviewing q).candidate_id (reviewing q).organization_id id organization
          db.candidates (call p q db).0.candidates _ f (call-Effect p q db).1 in
      (w.0, e ∙ w.1, w.2, w.3)
]

all-IsReviewed :
    (p : FactPlatform) (qs : List Call) (db : FactTables) (id organization : ℕ)
    → IsReviewed id organization db.candidates
    → IsReviewed id organization (call_all p qs db).candidates
unfolding call_all
all-IsReviewed p [] db id organization w = w
all-IsReviewed p (q ∷ qs) db id organization w =
    all-IsReviewed p qs (call p q db).0 id organization (stays-IsReviewed p q db id organization w)

-- Once a call about a candidate has returned, an approval, a revision or a rejection, then after
-- any further calls, of any tenants, each call about the same candidate is refused as already
-- reviewed and changes nothing.
pub reviewed_once :
    (p : FactPlatform) (q q' : Call) (qs : List Call) (db db' : FactTables)
    → call p q db ≡ (db', ok tt)
    → (reviewing q').candidate_id ≡ (reviewing q).candidate_id
    → (reviewing q').organization_id ≡ (reviewing q).organization_id
    → call p q' (call_all p qs db')
      ≡ (call_all p qs db', err ReviewError.candidate_already_reviewed)
reviewed_once p q q' qs db db' h i o = refused p q' (call_all p qs db') (
    all-IsReviewed p qs db' _ _ (
      subst (λ n. IsReviewed n (reviewing q').organization_id db'.candidates) (sym i)
        (subst (λ n. IsReviewed (reviewing q).candidate_id n db'.candidates) (sym o)
          (call-IsReviewed p q db db' h))))
