-- ===== src/Ingestion/Lifecycle/Audit.antt =====
-- The audit log against the rows, for any sequence of calls of the service of
-- services/api/app/services/state_machine.py.
use mathlib.Core.List.{append-nil, append_assoc}
use finance_intelligence.Prelude.{
  Bool, Bool-cases, List, Option, Option-cases, [], ap, arith, false, inl, inr, refl, select, some,
  sym, true, ℕ, ◌&&◌, ◌++◌, ◌==◌, ◌∷◌, ◌≡◌, ◌⊎◌, select-append, ◌∙◌,
}
use mathlib.Core.Path.{subst}
use finance_intelligence.Orchestration.Store.{update_where, first_where}
use finance_intelligence.Ingestion.Lifecycle.Transition.{
  Tables, Entity, transition, state_event, is_owned, transition_row, moved, StateEvent, TargetType,
  Outcome,
}

-- The arguments of a call.
pub record Request {ℓ} (S : Type ℓ) : Type ℓ where
  pub id : ℕ
  pub expected_state : S
  pub target_state : S
  pub organization_id : ℕ
  pub actor_id : Option ℕ
  pub now : ℕ

-- The events that are about a row.
abbrev pub is_about {ℓ} : {S : Type ℓ} → ℕ → ℕ → StateEvent S → Bool
is_about id organization e = e.target_id == id && e.organization_id == organization

module _ {ℓ} {S : Type ℓ} (same : S → S → Bool) (allows : S → S → Bool) (stamps : S → Bool)
    (target_type : TargetType) where
  unfoldable pub call : Request S → Tables S → Outcome S
  call q =
      transition same allows stamps target_type q.id q.expected_state q.target_state
        q.organization_id q.actor_id q.now

  -- The calls one after the other; an error leaves the next call to its own.
  unfoldable pub call_all : List (Request S) → Tables S → Tables S
  unfolding call
  call_all [] db = db
  call_all (q ∷ qs) db = call_all qs (call q db).0

-- A list of events that leads from one status to another over allowed transitions only.
abbrev pub Leads {ℓ} : {S : Type ℓ} → (S → S → Bool) → S → List (StateEvent S) → S → Type ℓ
Leads allows s [] t = s ≡ t
Leads allows s (e ∷ es) t =
    (e.from_state ≡ s) × (allows s e.to_state ≡ true) × Leads allows e.to_state es t

-- The row of a table and the part of its log that is about it.
abbrev pub Audited {ℓ} :
    {S : Type ℓ} → (S → S → Bool) → ℕ → ℕ → Tables S → Entity S → Tables S → Type ℓ
Audited {S = S} allows id organization db r db' =
    (r' : Entity S) × (es : List (StateEvent S)) × (first_where (is_owned id organization) db'.rows
      ≡ some r')
    × (select (is_about id organization) db'.audit_log
        ≡ select (is_about id organization) db.audit_log ++ es)
    × Leads allows r.status es r'.status

module _ {ℓ} {S : Type ℓ} where
  Leads-append :
      (allows : S → S → Bool) (s t u : S) (es fs : List (StateEvent S))
      → Leads allows s es t
      → Leads allows t fs u
      → Leads allows s (es ++ fs) u
  Leads-append allows s t u [] fs h k = subst (λ x. Leads allows x fs u) (sym h) k
  Leads-append allows s t u (e ∷ es) fs h k =
      (h.0, h.1, Leads-append allows e.to_state t u es fs h.2 k)

  -- An update of the rows with one key is read back at that key, and nowhere else.
  pub updated_here :
      (id organization : ℕ) (f : Entity S → Entity S) (rows : List (Entity S)) (r : Entity S)
      → ((x : Entity S) → is_owned id organization (f x) ≡ is_owned id organization x)
      → first_where (is_owned id organization) rows ≡ some r
      → first_where (is_owned id organization) (update_where (is_owned id organization) f rows)
        ≡ some (f r)
  updated_here id organization f [] r k e = cc
  updated_here id organization f (x ∷ rows) r k e = elim (Bool-cases (is_owned id organization x)) [
    | inl t ↦ rw (t, k x, t) (ap some (ap f (ground (arith, e))))
    | inr n ↦ rw (n, n) (updated_here id organization f rows r k (rw n at e))
  ]

  updated_elsewhere :
      (id organization id' organization' : ℕ) (f : Entity S → Entity S) (rows : List (Entity S))
      → ((x : Entity S)
          → is_owned id organization x ≡ true
          → (is_owned id' organization' x ≡ false) × (is_owned id' organization' (f x) ≡ false))
      → first_where (is_owned id' organization') (update_where (is_owned id organization) f rows)
        ≡ first_where (is_owned id' organization') rows
  updated_elsewhere id organization id' organization' f [] k = refl
  updated_elsewhere id organization id' organization' f (x ∷ rows) k =
      let rest = updated_elsewhere id organization id' organization' f rows k in
      elim (Bool-cases (is_owned id organization x)) [
        | inl t ↦ rw (t, (k x t).0, (k x t).1) rest
        | inr n ↦ rw (n, rest) refl
      ]

module _ {ℓ} {S : Type ℓ} (same : S → S → Bool) (allows : S → S → Bool) (stamps : S → Bool)
    (target_type : TargetType) where
  -- The tables after a step of the row that a call names.
  abbrev stepped : Request S → S → Tables S → Tables S
  stepped q current db = record {
    rows =
        update_where (is_owned q.id q.organization_id) (moved stamps q.target_state q.now) db.rows;
    audit_log =
        db.audit_log
        ++ state_event target_type q.id q.organization_id q.actor_id current q.target_state ∷ [];
  }

  -- What a call does: nothing, or one allowed step of the row with its event.
  call_cases :
      (q : Request S) (db : Tables S)
      → ((call same allows stamps target_type q db).0 ≡ db)
        ⊎ ((r : Entity S) × (first_where (is_owned q.id q.organization_id) db.rows ≡ some r)
            × (allows r.status q.target_state ≡ true)
            × ((call same allows stamps target_type q db).0 ≡ stepped q r.status db))
  unfolding call transition transition_row
  call_cases q db = elim (Option-cases (first_where (is_owned q.id q.organization_id) db.rows)) [
    | inl n ↦ inl (rw n refl)
    | inr (r, p) ↦ elim (Bool-cases (same r.status q.expected_state)) [
      | inr f ↦ inl (rw (p, f) refl)
      | inl t ↦ elim (Bool-cases (allows r.status q.target_state)) [
        | inr f ↦ inl (rw (p, t, f) refl)
        | inl a ↦ inr (r, p, a, rw (p, t, a) refl)
      ]
    ]
  ]

  step_here :
      (q : Request S) (db : Tables S) (r : Entity S)
      → first_where (is_owned q.id q.organization_id) db.rows ≡ some r
      → allows r.status q.target_state ≡ true
      → Audited allows q.id q.organization_id db r (stepped q r.status db)
  unfolding is_owned moved state_event
  step_here q db r e a = (
    moved stamps q.target_state q.now r,
    state_event target_type q.id q.organization_id q.actor_id r.status q.target_state ∷ [],
    updated_here q.id q.organization_id (moved stamps q.target_state q.now) db.rows r (λ x. refl) e,
    select-append (is_about q.id q.organization_id) db.audit_log _
        ∙ ap (λ es. select (is_about q.id q.organization_id) db.audit_log ++ es) (ground arith),
    (refl, a, refl),
  )

  step_there :
      (q : Request S) (current : S) (db : Tables S) (id organization : ℕ) (r : Entity S)
      → (q.id == id && q.organization_id == organization) ≡ false
      → first_where (is_owned id organization) db.rows ≡ some r
      → Audited allows id organization db r (stepped q current db)
  unfolding is_owned moved state_event
  step_there q current db id organization r f e = (
    r,
    [],
    updated_elsewhere q.id q.organization_id id organization (moved stamps q.target_state q.now)
          db.rows (λ x h. (ground arith, ground arith))
        ∙ e,
    select-append (is_about id organization) db.audit_log _
        ∙ ap (λ es. select (is_about id organization) db.audit_log ++ es) (ground arith),
    refl,
  )

  -- One call, seen from a row that need not be its own.
  call-Audited :
      (q : Request S) (db : Tables S) (id organization : ℕ) (r : Entity S)
      → first_where (is_owned id organization) db.rows ≡ some r
      → Audited allows id organization db r (call same allows stamps target_type q db).0
  unfolding is_owned moved state_event
  call-Audited q db id organization r e = elim (call_cases q db) [
    | inl k ↦ rw k (r, [], e, sym (append-nil _), refl)
    | inr (s, p, a, k) ↦ elim (Bool-cases (q.id == id && q.organization_id == organization)) [
      | inl t ↦
          let u : q.id ≡ id = ground arith in
          let v : q.organization_id ≡ organization = ground arith in
          let w : s ≡ r = cc in
          rw k (
            subst (λ x. Audited allows id organization db x (stepped q s.status db)) w
              (subst (λ y. Audited allows y organization db s (stepped q s.status db)) u
                (subst (λ y. Audited allows q.id y db s (stepped q s.status db)) v
                  (step_here q db s p a))))
      | inr f ↦ rw k (step_there q s.status db id organization r f e)
    ]
  ]

-- The audit log is the history of each row. After any sequence of calls, refused ones and calls of
-- other tenants among them, the events that were added about a row of a tenant lead from the status
-- that the row had to the status that it has, each from the status in which the one before it ended
-- and each over a transition that the table allows; so a row of which no event tells is unchanged
-- in status.
pub call_all-Audited {ℓ} :
    {S : Type ℓ} (same : S → S → Bool) (allows : S → S → Bool) (stamps : S → Bool)
    (target_type : TargetType) (qs : List (Request S)) (db : Tables S) (id organization : ℕ)
    (r : Entity S)
    → first_where (is_owned id organization) db.rows ≡ some r
    → Audited allows id organization db r (call_all same allows stamps target_type qs db)
unfolding call_all
call_all-Audited same allows stamps target_type [] db id organization r e =
    (r, [], e, sym (append-nil _), refl)
call_all-Audited same allows stamps target_type (q ∷ qs) db id organization r e =
    let (s, es, p, log, way) =
      call-Audited same allows stamps target_type q db id organization r e in
    let (t, fs, p', log', way') =
      call_all-Audited same allows stamps target_type qs
        (call same allows stamps target_type q db).0 id organization s p in
    (
      t,
      es ++ fs,
      p',
      log' ∙ ap (λ x. x ++ fs) log ∙ append_assoc _ es fs,
      Leads-append allows r.status s.status t.status es fs way way',
    )
