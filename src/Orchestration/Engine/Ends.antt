-- ===== src/Orchestration/Engine/Ends.antt =====
-- How an action of the engine ends: it returns a value or raises an exception, in a session of which
-- something is known.
use finance_intelligence.Prelude.{ok, err, Result, Bool, true, false, if◌then◌else◌, ◌≡◌, refl}
use finance_intelligence.Orchestration.Engine.{
  EngineException, Session, Outcome, Action, and_then, lift,
}

pub data Ends {A : Type 0} (P : A → Session → Type 0) (Q : EngineException → Session → Type 0)
    : Outcome A → Type 0 where
  returned : {a : A} {s : Session} → P a s → Ends P Q (s, ok a)
  raised : {e : EngineException} {s : Session} → Q e s → Ends P Q (s, err e)

module _ {A B : Type 0} {P : A → Session → Type 0} {R : B → Session → Type 0}
    {Q : EngineException → Session → Type 0} where
  -- The rest of a chain starts where the first part returned.
  pub Ends-bind :
      {o : Outcome A} {f : A → Action B}
      → Ends P Q o
      → ((a : A) (s : Session) → P a s → Ends R Q (f a s))
      → Ends R Q (and_then o f)
  Ends-bind (returned p) next = next _ _ p
  Ends-bind (raised q) next = raised q

module _ {A : Type 0} {P : A → Session → Type 0} {Q : EngineException → Session → Type 0} where
  pub Ends-mono :
      {P' : A → Session → Type 0} {Q' : EngineException → Session → Type 0} {o : Outcome A}
      → Ends P Q o
      → ((a : A) (s : Session) → P a s → P' a s)
      → ((e : EngineException) (s : Session) → Q e s → Q' e s)
      → Ends P' Q' o
  Ends-mono (returned p) f g = returned (f _ _ p)
  Ends-mono (raised q) f g = raised (g _ _ q)

  pub Ends-lift :
      (r : Result EngineException A) (s : Session)
      → ((a : A) → r ≡ ok a → P a s)
      → ((e : EngineException) → r ≡ err e → Q e s)
      → Ends P Q (lift r s)
  Ends-lift (ok a) s f g = returned (f a refl)
  Ends-lift (err e) s f g = raised (g e refl)

  pub Ends-if :
      (b : Bool) (m n : Action A) (s : Session)
      → (b ≡ true → Ends P Q (m s))
      → (b ≡ false → Ends P Q (n s))
      → Ends P Q ((if b then m else n) s)
  Ends-if true m n s f g = f refl
  Ends-if false m n s f g = g refl

-- A first part of which nothing is to be known.
pub Ends-skip :
    {A B : Type 0} {R : B → Session → Type 0} (o : Outcome A) (f : A → Action B)
    → ((a : A) (s : Session) → Ends R (λ e s. Unit {0}) (f a s))
    → Ends R (λ e s. Unit {0}) (and_then o f)
Ends-skip (s, ok a) f next = next a s
Ends-skip (s, err e) f next = raised tt

-- What is known where the outcome is known.
module _ {A : Type 0} (P : A → Session → Type 0) (Q : EngineException → Session → Type 0) where
  abbrev pub AtEnd : Outcome A → Type 0
  AtEnd (s, ok a) = P a s
  AtEnd (s, err e) = Q e s

  pub Ends-AtEnd : {o : Outcome A} → Ends P Q o → AtEnd o
  Ends-AtEnd (returned p) = p
  Ends-AtEnd (raised q) = q

pub and_then_congr :
    {A B : Type 0} (o : Outcome A) (f g : A → Action B)
    → ((a : A) (s : Session) → f a s ≡ g a s)
    → and_then o f ≡ and_then o g
and_then_congr (s, ok a) f g same = same a s
and_then_congr (s, err e) f g same = refl

-- What is known of the session in either case is known where the outcome is known.
pub Ends-and :
    {A : Type 0} {P : A → Session → Type 0} {Q : EngineException → Session → Type 0} {o : Outcome A}
    (S : Session → Type 0)
    → Ends P Q o
    → AtEnd (λ a s. S s) (λ e s. S s) o
    → Ends (λ a s. P a s × S s) Q o
Ends-and S (returned p) q = returned (p, q)
Ends-and S (raised p) q = raised p
