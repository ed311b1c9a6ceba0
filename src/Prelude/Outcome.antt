-- ===== src/Prelude/Outcome.antt =====
-- A call that returns a value or raises an error.
use mathlib.Core.Path.{◌≡◌, refl}
use mathlib.Core.Logic.{◌⊎◌, inl, inr}
use mathlib.Core.Bool.{Bool, true, false}

pub data Result {ℓ κ} (E : Type ℓ) (A : Type κ) : Type (ℓ ⊔ κ) where
  ok : A → Result E A
  err : E → Result E A

infixl 5 ◌>>=◌ ◌>>◌
abbrev pub ◌>>=◌ {ℓ κ μ} :
    {E : Type ℓ} {A : Type κ} {B : Type μ} → Result E A → (A → Result E B) → Result E B
ok a >>= f = f a
err e >>= f = err e

abbrev pub ◌>>◌ {ℓ κ μ} :
    {E : Type ℓ} {A : Type κ} {B : Type μ} → Result E A → Result E B → Result E B
m >> k = m >>= λ _. k

-- `if test: raise e`.
abbrev pub raise_if {ℓ} : {E : Type ℓ} → Bool → E → Result E (Unit {0})
raise_if true e = err e
raise_if false e = ok tt

-- `except E: …` on the error of a call.
abbrev pub is_ok {ℓ κ} : {E : Type ℓ} {A : Type κ} → Result E A → Bool
is_ok (ok a) = true
is_ok (err e) = false

pub Result-cases {ℓ κ} :
    {E : Type ℓ} {A : Type κ} (r : Result E A) → ((a : A) × (r ≡ ok a)) ⊎ ((e : E) × (r ≡ err e))
Result-cases (ok a) = inl (a, refl)
Result-cases (err e) = inr (e, refl)

-- A chain that succeeds has succeeded at each link.
pub bind-ok {ℓ κ μ} :
    {E : Type ℓ} {A : Type κ} {B : Type μ} (m : Result E A) (f : A → Result E B) (b : B)
    → (m >>= f) ≡ ok b
    → (a : A) × (m ≡ ok a) × (f a ≡ ok b)
bind-ok (ok a) f b e = (a, refl, e)
bind-ok (err x) f b e = cc

pub ok-injective {ℓ κ} :
    {E : Type ℓ} {A : Type κ} {a b : A} → ◌≡◌ {A = Result E A} (ok a) (ok b) → a ≡ b
ok-injective e = cc

pub then-ok {ℓ κ μ} :
    {E : Type ℓ} {A : Type κ} {B : Type μ} (m : Result E A) (k : Result E B) (b : B)
    → (m >> k) ≡ ok b
    → (a : A) × (m ≡ ok a) × (k ≡ ok b)
then-ok (ok a) k b e = (a, refl, e)
then-ok (err x) k b e = cc

pub raise_if-ok {ℓ} :
    {E : Type ℓ} (b : Bool) (e : E) (u : Unit {0}) → raise_if b e ≡ ok u → b ≡ false
raise_if-ok true e u h = cc
raise_if-ok false e u h = refl

-- What holds of the value of a call that returns one.
pub data AtOk {ℓ κ μ} {E : Type ℓ} {A : Type κ} (P : A → Type μ)
    : Result E A → Type (ℓ ⊔ κ ⊔ μ) where
  at_ok : {a : A} → P a → AtOk P (ok a)
  at_err : {e : E} → AtOk P (err e)

module _ {ℓ κ μ ν} {E : Type ℓ} {A : Type κ} {B : Type μ} (P : B → Type ν) where
  pub AtOk-bind :
      (m : Result E A) (f : A → Result E B) → ((a : A) → m ≡ ok a → AtOk P (f a)) → AtOk P (m >>= f)
  AtOk-bind (ok a) f h = h a refl
  AtOk-bind (err e) f h = at_err

  pub AtOk-then :
      (m : Result E A) (k : Result E B) → ((a : A) → m ≡ ok a → AtOk P k) → AtOk P (m >> k)
  AtOk-then (ok a) k h = h a refl
  AtOk-then (err e) k h = at_err

pub AtOk-value {ℓ κ μ} :
    {E : Type ℓ} {A : Type κ} (P : A → Type μ) (a : A) → AtOk {E = E} P (ok a) → P a
AtOk-value P a (at_ok h) = h

pub AtOk-mono {ℓ κ μ ν} :
    {E : Type ℓ} {A : Type κ} {P : A → Type μ} {Q : A → Type ν} {m : Result E A}
    → ((a : A) → P a → Q a)
    → AtOk P m
    → AtOk Q m
AtOk-mono f (at_ok h) = at_ok (f _ h)
AtOk-mono f at_err = at_err

pub AtOk-const {ℓ κ μ} :
    {E : Type ℓ} {A : Type κ} {S : Type μ} (m : Result E A) → S → AtOk (λ _. S) m
AtOk-const (ok a) s = at_ok s
AtOk-const (err e) s = at_err
