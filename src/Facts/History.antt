-- ===== src/Facts/History.antt =====
-- The history of the facts.
use finance_intelligence.Facts.Effects.{call-Effect}
use finance_intelligence.Orchestration.Store.{update_where, is_null}
use finance_intelligence.Facts.Writes.{is_in_force, closed}
use finance_intelligence.Prelude.{Bool-cases, List, [], arith, inl, inr, ℕ, ◌++◌, ◌∷◌, ◌≡◌, true}
use finance_intelligence.Facts.{FinancialFact, FactTables, FactPlatform}
use finance_intelligence.Facts.Calls.{FactsStep, stays, publishes, supersedes, call_all, Call, call}

-- A table of facts and a later one: each fact stands where it stood and is the same, or it was in
-- force and is closed, in nothing else different; new ones follow.
pub data Keeps : List FinancialFact → List FinancialFact → Type 0 where
  adds : {new : List FinancialFact} → Keeps [] new
  keeps : {fs gs : List FinancialFact} (f : FinancialFact) → Keeps fs gs → Keeps (f ∷ fs) (f ∷ gs)
  closes :
      {fs gs : List FinancialFact} (f : FinancialFact) (now : ℕ)
      → is_null f.valid_to ≡ true
      → Keeps fs gs
      → Keeps (f ∷ fs) (closed now f ∷ gs)

Keeps-refl : (fs : List FinancialFact) → Keeps fs fs
Keeps-refl [] = adds
Keeps-refl (f ∷ fs) = keeps f (Keeps-refl fs)

append-Keeps : (fs new : List FinancialFact) → Keeps fs (fs ++ new)
append-Keeps [] new = adds
append-Keeps (f ∷ fs) new = keeps f (append-Keeps fs new)

closed-Keeps :
    (id organization now : ℕ) (fs new : List FinancialFact)
    → Keeps fs (update_where (is_in_force id organization) (closed now) fs ++ new)
unfolding is_in_force
closed-Keeps id organization now [] new = adds
closed-Keeps id organization now (f ∷ fs) new =
    let rest = closed-Keeps id organization now fs new in
    elim (Bool-cases (is_in_force id organization f)) [
      | inl t ↦ rw t (closes f now (ground arith) rest)
      | inr b ↦ rw b (keeps f rest)
    ]

step-Keeps : (fs gs : List FinancialFact) → FactsStep fs gs → Keeps fs gs
step-Keeps fs gs stays = Keeps-refl fs
step-Keeps fs gs (publishes f v e) = append-Keeps fs (f ∷ [])
step-Keeps fs gs (supersedes id organization now old f v e s n) =
    closed-Keeps id organization now fs (f ∷ [])

Keeps-trans : (fs gs hs : List FinancialFact) → Keeps fs gs → Keeps gs hs → Keeps fs hs
unfolding closed
Keeps-trans fs gs hs adds l = adds
Keeps-trans fs gs hs (keeps f k) (keeps _ l) = keeps f (Keeps-trans _ _ _ k l)
Keeps-trans fs gs hs (keeps f k) (closes _ now v l) = closes f now v (Keeps-trans _ _ _ k l)
Keeps-trans fs gs hs (closes f now v k) (keeps _ l) = closes f now v (Keeps-trans _ _ _ k l)
Keeps-trans fs gs hs (closes f now v k) (closes _ later w l) = cc

-- The facts are a history. Whatever calls are made, each fact that there was still stands at its
-- place with each of its columns as it was, but that one that was in force may have been closed:
-- none is removed, rewritten, reopened or closed twice, and new facts only follow.
pub call_all-Keeps :
    (p : FactPlatform) (qs : List Call) (db : FactTables) → Keeps db.facts (call_all p qs db).facts
unfolding call_all
call_all-Keeps p [] db = Keeps-refl db.facts
call_all-Keeps p (q ∷ qs) db =
    Keeps-trans db.facts (call p q db).0.facts (call_all p (q ∷ qs) db).facts
      (step-Keeps db.facts (call p q db).0.facts (call-Effect p q db).0)
      (call_all-Keeps p qs (call p q db).0)
