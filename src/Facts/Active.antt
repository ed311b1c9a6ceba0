-- ===== src/Facts/Active.antt =====
-- One fact in force for each natural key, which is what the index
-- `uq_financial_facts_active_natural_key` of services/api/alembic/versions/
-- 010_fact_revision_and_active_uniqueness.py asks of the table.
use finance_intelligence.Facts.Effects.{call-Effect}
use mathlib.Core.Path.{subst}
use finance_intelligence.Orchestration.Store.Rows.{first_where-passes}
use finance_intelligence.Orchestration.Store.Counting.{
  length-select-snoc, length-select-found, length-select-update_where,
}
use finance_intelligence.Orchestration.Store.{first_where, update_where}
use finance_intelligence.Prelude.Ascii.{eq_text_iff}
use finance_intelligence.Facts.Calls.{FactsStep, stays, publishes, supersedes, call_all, Call, call}
use finance_intelligence.Facts.Writes.{
  NaturalKey, is_active_of, same_key, closed, is_in_force, key_of,
}
use finance_intelligence.Prelude.{
  Bool-cases, List, [], arith, false, inl, inr, length, refl, select, some, sym, true, ℕ, ◌++◌, ◌+◌,
  ◌∷◌, ◌≡◌, ◌≤◌,
}
use finance_intelligence.Facts.{FinancialFact, FactTables, FactPlatform}

abbrev pub ActiveUnique : List FinancialFact → Type 0
ActiveUnique fs = (k : NaturalKey) → length (select (is_active_of k) fs) ≤ 1

pub same_key_iff : (k l : NaturalKey) → same_key k l ≡ true → k ≡ l
unfolding same_key
same_key_iff k l h = λ i. record {
  organization_id = a i;
  institution_id = b i;
  reporting_period_id = c i;
  metric_definition_id = d i;
  reporting_basis = e i;
  currency = f i;
  unit = g i;
}
  where
    a : k.organization_id ≡ l.organization_id
    a = ground arith

    b : k.institution_id ≡ l.institution_id
    b = ground arith

    c : k.reporting_period_id ≡ l.reporting_period_id
    c = ground arith

    d : k.metric_definition_id ≡ l.metric_definition_id
    d = ground arith

    e : k.reporting_basis ≡ l.reporting_basis
    e = eq_text_iff k.reporting_basis l.reporting_basis (ground arith)

    f : k.currency ≡ l.currency
    f = eq_text_iff k.currency l.currency (ground arith)

    g : k.unit ≡ l.unit
    g = eq_text_iff k.unit l.unit (ground arith)

pub active_key : (k : NaturalKey) (f : FinancialFact) → is_active_of k f ≡ true → k ≡ key_of f
unfolding is_active_of
active_key k f h = same_key_iff k (key_of f) (ground arith)

-- A fact that is closed is not in force.
pub closed-inactive :
    (now : ℕ) (k : NaturalKey) (f : FinancialFact) → is_active_of k (closed now f) ≡ false
unfolding is_active_of closed
closed-inactive now k f = refl

-- The fact that a revision names is the one in force of the key of its successor.
pub old-active :
    (fs : List FinancialFact) (id organization : ℕ) (old f : FinancialFact)
    → first_where (is_in_force id organization) fs ≡ some old
    → same_key (key_of f) (key_of old) ≡ true
    → is_active_of (key_of f) old ≡ true
unfolding is_active_of is_in_force
old-active fs id organization old f e s =
    let h = first_where-passes (is_in_force id organization) fs old e in ground arith

-- After the insertion of a fact whose key none has that is in force.
insert-ActiveUnique :
    (fs : List FinancialFact) (f : FinancialFact)
    → length (select (is_active_of (key_of f)) fs) ≤ 0
    → ActiveUnique fs
    → ActiveUnique (fs ++ f ∷ [])
insert-ActiveUnique fs f e u k =
    let n = length-select-snoc (is_active_of k) fs f in
    let old = u k in
    elim (Bool-cases (is_active_of k f)) [
      | inl t ↦
          let free : length (select (is_active_of k) fs) ≤ 0 =
            subst (λ l. length (select (is_active_of l) fs) ≤ 0) (sym (active_key k f t)) e in
          let m : length (select (is_active_of k) (fs ++ f ∷ []))
              ≡ length (select (is_active_of k) fs) + 1 =
            rw t at n in
          omega arith
      | inr b ↦
          let m : length (select (is_active_of k) (fs ++ f ∷ []))
              ≡ length (select (is_active_of k) fs) + 0 =
            rw b at n in
          omega arith
    ]

step-ActiveUnique :
    (fs fs' : List FinancialFact) → FactsStep fs fs' → ActiveUnique fs → ActiveUnique fs'
step-ActiveUnique fs fs' stays u = u
step-ActiveUnique fs fs' (publishes f v e) u = insert-ActiveUnique fs f (rw e (omega arith)) u
step-ActiveUnique fs fs' (supersedes id organization now old f v e s n) u =
    let t = is_in_force id organization in
    let less =
      length-select-found (is_active_of (key_of f)) t (closed now) fs old
        (closed-inactive now (key_of f)) e (old-active fs id organization old f e s) in
    let one = u (key_of f) in
    insert-ActiveUnique (update_where t (closed now) fs) f (omega arith) (λ k.
      let fewer =
        length-select-update_where (is_active_of k) t (closed now) fs (closed-inactive now k) in
      let most = u k in omega arith)

-- Whatever calls are made, in whatever order and by whichever tenants, and whether they are refused
-- or not, there is at most one fact in force for each natural key where there was at most one
-- before.
pub call_all-ActiveUnique :
    (p : FactPlatform) (qs : List Call) (db : FactTables)
    → ActiveUnique db.facts
    → ActiveUnique (call_all p qs db).facts
unfolding call_all
call_all-ActiveUnique p [] db u = u
call_all-ActiveUnique p (q ∷ qs) db u =
    call_all-ActiveUnique p qs (call p q db).0
      (step-ActiveUnique db.facts (call p q db).0.facts (call-Effect p q db).0 u)
