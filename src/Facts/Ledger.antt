-- ===== src/Facts/Ledger.antt =====
-- What the review of facts promises: a ledger with one value for each natural key. The tables of
-- services/api/app/services/financial_fact_service.py are one of its implementations.
use finance_intelligence.Orchestration.Store.Counting.{
  length-select-found, first_where-update_where,
}
use finance_intelligence.Facts.Effects.{call-Effect}
use finance_intelligence.Facts.Active.{active_key, ActiveUnique, old-active, closed-inactive}
use finance_intelligence.Facts.Calls.{FactsStep, stays, publishes, supersedes, Call, call}
use mathlib.Core.Path.{subst}
use finance_intelligence.Prelude.Ascii.{eq_text_refl}
use finance_intelligence.Orchestration.Store.{first_where, is_null, update_where}
use finance_intelligence.Facts.Writes.{
  NaturalKey, is_active_of, is_in_force, same_key, key_of, closed,
}
use finance_intelligence.Prelude.{
  Bool, Bool-cases, List, Option, [], arith, inl, inr, length, refl, select, suc, true, ℕ, ◌++◌,
  ◌∷◌, ◌≡◌, ◌≤◌, false, none, some, ap, sym, ◌∙◌,
}
use finance_intelligence.Facts.{FinancialFact, ℤ, eq_int, FactPlatform, FactTables}

-- The value in force of each key.
abbrev pub Ledger : Type 0
Ledger = NaturalKey → Option ℤ

abbrev pub value_of : Option FinancialFact → Option ℤ
value_of none = none
value_of (some f) = some f.normalized_value

abbrev pub ledger : List FinancialFact → Ledger
ledger fs k = value_of (first_where (is_active_of k) fs)

-- The values of the other keys are the same.
abbrev pub Elsewhere : NaturalKey → Ledger → Ledger → Type 0
Elsewhere k m m' = (l : NaturalKey) → same_key l k ≡ false → m' l ≡ m l

-- A step of a ledger: none, a first value for a key that has none, or another value in place of the
-- one that a key has.
pub data LedgerStep (m m' : Ledger) : Type 0 where
  idles : ((k : NaturalKey) → m' k ≡ m k) → LedgerStep m m'
  enters :
      (k : NaturalKey) (v : ℤ) → m k ≡ none → m' k ≡ some v → Elsewhere k m m' → LedgerStep m m'
  revises :
      (k : NaturalKey) (v w : ℤ)
      → m k ≡ some v
      → eq_int v w ≡ false
      → m' k ≡ some w
      → Elsewhere k m m'
      → LedgerStep m m'

-- `id` is the primary key of the facts.
abbrev pub PrimaryKey : List FinancialFact → Type 0
PrimaryKey fs = (id organization : ℕ) → length (select (is_in_force id organization) fs) ≤ 1

module _ {ℓ} {A : Type ℓ} (t : A → Bool) where
  first_where-snoc-miss :
      (xs : List A) (x : A) → t x ≡ false → first_where t (xs ++ x ∷ []) ≡ first_where t xs
  first_where-snoc-miss [] x h = rw h refl
  first_where-snoc-miss (y ∷ ys) x h = let rest = first_where-snoc-miss ys x h in rw rest refl

  first_where-snoc-hit :
      (xs : List A) (x : A)
      → t x ≡ true
      → length (select t xs) ≤ 0
      → first_where t (xs ++ x ∷ []) ≡ some x
  first_where-snoc-hit [] x h n = rw h refl
  first_where-snoc-hit (y ∷ ys) x h n = elim (Bool-cases (t y)) [
    | inl a ↦ let s : suc (length (select t ys)) ≤ 0 = rw a at n in ground arith
    | inr b ↦ rw b (first_where-snoc-hit ys x h (rw b at n))
  ]

  -- No row passes the test where none is selected, and the one that does is found.
  first_where-empty : (xs : List A) → select t xs ≡ [] → first_where t xs ≡ none
  first_where-empty [] e = refl
  first_where-empty (x ∷ xs) e = elim (Bool-cases (t x)) [
    | inl a ↦ cc (rw a at e)
    | inr b ↦ rw b (first_where-empty xs (rw b at e))
  ]

same_key_refl : (k : NaturalKey) → same_key k k ≡ true
unfolding same_key
same_key_refl k =
    ground (arith, eq_text_refl k.reporting_basis, eq_text_refl k.currency, eq_text_refl k.unit)

own_key : (f : FinancialFact) → is_null f.valid_to ≡ true → is_active_of (key_of f) f ≡ true
unfolding is_active_of
own_key f v = let s = same_key_refl (key_of f) in ground arith

other_key :
    (l k : NaturalKey) (f : FinancialFact)
    → same_key l k ≡ false
    → k ≡ key_of f
    → is_active_of l f ≡ false
unfolding is_active_of
other_key l k f d e =
    let s : same_key l (key_of f) ≡ false = subst (λ x. same_key l x ≡ false) e d in ground arith

module _ {ℓ} {A : Type ℓ} (p t : A → Bool) where
  counted :
      (xs : List A) (old : A)
      → first_where t xs ≡ some old
      → p old ≡ true
      → 1 ≤ length (select p xs)
  counted [] old e o = cc
  counted (x ∷ xs) old e o = elim (Bool-cases (t x)) [
    | inl a ↦
        let same : x ≡ old = cc (rw a at e) in
        let h : p x ≡ true = subst (λ y. p y ≡ true) (sym same) o in rw h (omega arith)
    | inr b ↦ let rest = counted xs old (rw b at e) o in ground arith
  ]

  -- The only row that passes a test is the one that a lookup by the test finds.
  found_by_both :
      (xs : List A) (old : A)
      → first_where t xs ≡ some old
      → p old ≡ true
      → length (select p xs) ≤ 1
      → first_where p xs ≡ some old
  found_by_both [] old e o n = cc
  found_by_both (x ∷ xs) old e o n = elim (Bool-cases (t x)) [
    | inl a ↦
        let same : x ≡ old = cc (rw a at e) in
        let h : p x ≡ true = subst (λ y. p y ≡ true) (sym same) o in rw h (ap some same)
    | inr b ↦
        let c = counted xs old (rw b at e) o in
        elim (Bool-cases (p x)) [
          | inl h ↦ let m : suc (length (select p xs)) ≤ 1 = rw h at n in ground arith
          | inr h ↦ rw h (found_by_both xs old (rw b at e) o (rw h at n))
        ]
  ]

step-Ledger :
    (fs fs' : List FinancialFact)
    → FactsStep fs fs'
    → ActiveUnique fs
    → PrimaryKey fs
    → LedgerStep (ledger fs) (ledger fs')
step-Ledger fs fs' stays u i = idles (λ k. refl)
step-Ledger fs fs' (publishes f v e) u i =
    enters (key_of f) f.normalized_value
      (ap value_of (first_where-empty (is_active_of (key_of f)) fs e))
      (ap value_of
        (first_where-snoc-hit (is_active_of (key_of f)) fs f (own_key f v) (rw e (omega arith))))
      (λ l d.
        ap value_of (first_where-snoc-miss (is_active_of l) fs f (other_key l (key_of f) f d refl)))
step-Ledger fs fs' (supersedes id organization now old f v e s n) u i =
    let t = is_in_force id organization in
    let k = key_of f in
    let active = old-active fs id organization old f e s in
    let one = u k in
    let less =
      length-select-found (is_active_of k) t (closed now) fs old (closed-inactive now k) e active in
    revises k old.normalized_value f.normalized_value
      (ap value_of (found_by_both (is_active_of k) t fs old e active one)) n
      (ap value_of (
        first_where-snoc-hit (is_active_of k) (update_where t (closed now) fs) f (own_key f v)
          (omega arith)))
      (λ l d. ap value_of (
        first_where-snoc-miss (is_active_of l) (update_where t (closed now) fs) f
          (other_key l k f d refl)
        ∙ first_where-update_where (is_active_of l) t (closed now) fs old (closed-inactive now l) e
            (i id organization) (other_key l k old d (active_key k old active))))

-- Each call, on every branch, is a step of the ledger, where the keys in force are unique and `id`
-- is the primary key: it leaves the value of every natural key, or it gives one to a single key
-- that has none, or it replaces the value of a single key that has another one.
pub call-LedgerStep :
    (p : FactPlatform) (q : Call) (db : FactTables)
    → ActiveUnique db.facts
    → PrimaryKey db.facts
    → LedgerStep (ledger db.facts) (ledger (call p q db).0.facts)
call-LedgerStep p q db u i = step-Ledger db.facts (call p q db).0.facts (call-Effect p q db).0 u i
