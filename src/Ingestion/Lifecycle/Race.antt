-- ===== src/Ingestion/Lifecycle/Race.antt =====
-- The guard on the expected status, which makes a change of status a compare-and-swap
-- (services/api/app/services/state_machine.py).
use mathlib.Core.Path.{subst}
use finance_intelligence.Ingestion.Lifecycle.Audit.{updated_here}
use finance_intelligence.Ingestion.Lifecycle.{
  JobStatus-discrete, is_job_extraction_end, JobStatus, job_allows,
}
use finance_intelligence.Prelude.{
  Bool, Bool-cases, Option, Option-cases, inl, inr, ok, some, true, ℕ, ◌≡◌, ap, arith, err, false,
  refl, sym, ◌∙◌, from_decides,
}
use finance_intelligence.Orchestration.Store.{first_where, update_where}
use finance_intelligence.Ingestion.Lifecycle.Transition.{
  moved, is_owned, TargetType, transition_row, transition, Tables, Entity, ingestion_job,
  transition_job, is_completion, same_job, invalid_transition,
}

module _ {ℓ} {S : Type ℓ} (same : S → S → Bool) (allows : S → S → Bool) (stamps : S → Bool)
    (target_type : TargetType) where
  -- A call that succeeds leaves its row in the target, and was allowed.
  transition-ok :
      (id : ℕ) (expected target : S) (organization : ℕ) (actor : Option ℕ) (now : ℕ)
      (db db' : Tables S) (r : Entity S)
      → transition same allows stamps target_type id expected target organization actor now db
        ≡ (db', ok r)
      → (s : Entity S) × (same s.status expected ≡ true)
        × (allows s.status target ≡ true)
        × (r.status ≡ target)
        × (first_where (is_owned id organization) db'.rows ≡ some r)
  unfolding transition transition_row moved is_owned
  transition-ok id expected target organization actor now db db' r e =
      elim (Option-cases (first_where (is_owned id organization) db.rows)) [
        | inl n ↦ absurd (cc (rw n at e))
        | inr (s, p) ↦ elim (Bool-cases (same s.status expected)) [
          | inr f ↦ absurd (cc (rw (p, f) at e))
          | inl t ↦ elim (Bool-cases (allows s.status target)) [
            | inr f ↦ absurd (cc (rw (p, t, f) at e))
            | inl a ↦
                let e' = rw (p, t, a) at e in
                let rows : db'.rows
                    ≡ update_where (is_owned id organization) (moved stamps target now) db.rows =
                  cc in
                let row : moved stamps target now s ≡ r = cc in
                (
                  s,
                  t,
                  a,
                  sym (ap (λ x. x.status) row),
                  rw rows (
                      updated_here id organization (moved stamps target now) db.rows s (λ x. refl) p
                      ∙ ap some row),
                )
          ]
        ]
      ]

  -- A call that expects another status than the row has is refused, and changes nothing.
  stale :
      (id : ℕ) (expected target : S) (organization : ℕ) (actor : Option ℕ) (now : ℕ) (db : Tables S)
      (r : Entity S)
      → first_where (is_owned id organization) db.rows ≡ some r
      → same r.status expected ≡ false
      → transition same allows stamps target_type id expected target organization actor now db
        ≡ (db, err invalid_transition)
  unfolding transition transition_row
  stale id expected target organization actor now db r p f = rw (p, f) refl

same_job_sound : (s t : JobStatus) → same_job s t ≡ true → s ≡ t
unfolding same_job
same_job_sound s t h = from_decides (JobStatus-discrete s t) h

no_loop : (s : JobStatus) → job_allows s s ≡ false
unfolding job_allows is_job_extraction_end
no_loop s = ground arith

-- No table has a step from a status to itself, so a step leaves the status that was expected.
step_leaves :
    (s t e : JobStatus) → same_job s e ≡ true → job_allows s t ≡ true → same_job t e ≡ false
step_leaves s t e h a = elim (Bool-cases (same_job t e)) [
  | inr f ↦ f
  | inl k ↦
      let q : t ≡ s = same_job_sound t e k ∙ sym (same_job_sound s e h) in
      let loop : job_allows s s ≡ true = subst (λ x. job_allows s x ≡ true) q a in cc (no_loop s)
]

-- Of two workers that want the same step of one ingestion job, at most one gets it: after a call
-- that succeeded, a second call with the same expected status is refused and changes nothing.
pub second_worker_loses :
    (id : ℕ) (expected target other : JobStatus) (organization : ℕ) (actor actor' : Option ℕ)
    (now later : ℕ) (db db' : Tables JobStatus) (r : Entity JobStatus)
    → transition_job id expected target organization actor now db ≡ (db', ok r)
    → transition_job id expected other organization actor' later db' ≡ (db', err invalid_transition)
unfolding transition_job
second_worker_loses id expected target other organization actor actor' now later db db' r e =
    let (s, t, a, q, p) =
      transition-ok same_job job_allows is_completion ingestion_job id expected target organization
        actor now db db' r e in
    stale same_job job_allows is_completion ingestion_job id expected other organization actor'
      later db' r p (rw q (step_leaves s.status target expected t a))
