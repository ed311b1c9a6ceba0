-- ===== src/Orchestration/Store/Rows.antt =====
-- Laws of the queries and updates of Orchestration/Store.
use finance_intelligence.Prelude.{
  ◌≡◌, refl, inl, inr, Bool, true, false, Option, none, some, List, [], ◌∷◌, any, select,
  Bool-cases, arith, ◌&&◌,
}
use mathlib.Core.Path.{subst}
use finance_intelligence.Orchestration.Store.{update_where, first_where, minimum, choose}

-- Every row of a table.
abbrev pub All {ℓ κ} : {A : Type ℓ} → (A → Type κ) → List A → Type κ
All P [] = Unit
All P (x ∷ xs) = P x × All P xs

module _ {ℓ κ} {A : Type ℓ} (P : A → Type κ) where
  pub All-select :
      (p : A → Bool) (xs : List A) → All P xs → All (λ x. P x × (p x ≡ true)) (select p xs)
  All-select p [] h = tt
  All-select p (x ∷ xs) h = elim (Bool-cases (p x)) [
    | inl t ↦ rw t ((h.0, t), All-select p xs h.1)
    | inr f ↦ rw f (All-select p xs h.1)
  ]

  choose-P :
      (before : A → A → Bool) (x : A) (o : Option A)
      → P x
      → ((y : A) → o ≡ some y → P y)
      → P (choose before x o)
  choose-P before x none h k = h
  choose-P before x (some y) h k = elim (Bool-cases (before y x)) [
    | inl t ↦ rw t (k y refl)
    | inr f ↦ rw f h
  ]

  -- The row that is picked has what every row has.
  pub All-minimum :
      (before : A → A → Bool) (xs : List A) (x : A) → All P xs → minimum before xs ≡ some x → P x
  All-minimum before [] x h e = cc
  All-minimum before (y ∷ ys) x h e =
      let q : choose before y (minimum before ys) ≡ x = cc in
      subst P q (choose-P before y (minimum before ys) h.0 (λ z q. All-minimum before ys z h.1 q))

module _ {ℓ κ} {A : Type ℓ} (P Q : A → Type κ) where
  pub All-map : (xs : List A) → ((x : A) → P x → Q x) → All P xs → All Q xs
  All-map [] f h = tt
  All-map (x ∷ xs) f h = (f x h.0, All-map xs f h.1)

  -- An update keeps what it keeps of each row.
  pub All-update_where :
      (test : A → Bool) (f : A → A) (xs : List A)
      → ((x : A) → test x ≡ true → P x → Q (f x))
      → ((x : A) → test x ≡ false → P x → Q x)
      → All P xs
      → All Q (update_where test f xs)
  All-update_where test f [] hit miss h = tt
  All-update_where test f (x ∷ xs) hit miss h = elim (Bool-cases (test x)) [
    | inl t ↦ rw t (hit x t h.0, All-update_where test f xs hit miss h.1)
    | inr u ↦ rw u (miss x u h.0, All-update_where test f xs hit miss h.1)
  ]

module _ {ℓ} {A : Type ℓ} where
  pub All-any-false : (p : A → Bool) (xs : List A) → All (λ x. p x ≡ false) xs → any p xs ≡ false
  All-any-false p [] h = refl
  All-any-false p (x ∷ xs) h = rw (h.0) (All-any-false p xs h.1)

  pub any-false-All : (p : A → Bool) (xs : List A) → any p xs ≡ false → All (λ x. p x ≡ false) xs
  any-false-All p [] h = tt
  any-false-All p (x ∷ xs) h = (ground arith, any-false-All p xs (ground arith))

  -- A row that is picked from a selection is in the table.
  pub any-minimum-select :
      (before : A → A → Bool) (p q : A → Bool) (xs : List A) (x : A)
      → minimum before (select p xs) ≡ some x
      → q x ≡ true
      → any q xs ≡ true
  any-minimum-select before p q xs x e h = elim (Bool-cases (any q xs)) [
    | inl t ↦ t
    | inr f ↦
        let row =
          All-minimum (λ y. (q y ≡ false) × (p y ≡ true)) before (select p xs) x
            (All-select (λ y. q y ≡ false) p xs (any-false-All q xs f)) e in
        cc (row.0)
  ]

  -- The row that is picked from a selection passes its test.
  pub picked_passes :
      (p : A → Bool) (before : A → A → Bool) (xs : List A) (x : A)
      → minimum before (select p xs) ≡ some x
      → p x ≡ true
  picked_passes p before xs x e =
      (All-minimum (λ y. Unit {0} × (p y ≡ true)) before (select p xs) x
        (All-select (λ y. Unit {0}) p xs (All-trivial xs)) e).1
    where
      All-trivial : (ys : List A) → All (λ y. Unit {0}) ys
      All-trivial [] = tt
      All-trivial (y ∷ ys) = (tt, All-trivial ys)

  -- The row that a lookup finds passes its test.
  pub first_where-passes :
      (p : A → Bool) (xs : List A) (x : A) → first_where p xs ≡ some x → p x ≡ true
  first_where-passes p [] x e = cc
  first_where-passes p (y ∷ ys) x e = elim (Bool-cases (p y)) [
    | inl t ↦ let q : y ≡ x = cc (rw t at e) in subst (λ z. p z ≡ true) q t
    | inr f ↦ first_where-passes p ys x (rw f at e)
  ]

  -- A row is not picked where no row passes both tests.
  pub not_picked :
      (q test : A → Bool) (before : A → A → Bool) (xs : List A) (x : A)
      → All (λ z. (q z && test z) ≡ false) xs
      → minimum before (select test xs) ≡ some x
      → q x ≡ false
  not_picked q test before xs x h e =
      let row =
        All-minimum (λ z. ((q z && test z) ≡ false) × (test z ≡ true)) before (select test xs) x
          (All-select (λ z. (q z && test z) ≡ false) test xs h) e in
      ground arith

  -- An update that finds no row changes none.
  pub update_where-none :
      (p : A → Bool) (f : A → A) (xs : List A) → any p xs ≡ false → update_where p f xs ≡ xs
  update_where-none p f [] h = refl
  update_where-none p f (x ∷ xs) h =
      let rest = update_where-none p f xs (ground arith) in
      let miss : p x ≡ false = ground arith in rw (miss, rest) refl

  -- What no selected row has, no row has that would have been selected.
  pub select-All :
      (p q : A → Bool) (xs : List A)
      → All (λ z. q z ≡ false) (select p xs)
      → All (λ z. (p z && q z) ≡ false) xs
  select-All p q [] h = tt
  select-All p q (x ∷ xs) h = elim (Bool-cases (p x)) [
    | inl t ↦
        let h' : All (λ z. q z ≡ false) (x ∷ select p xs) = rw t at h in
        (rw t h'.0, select-All p q xs h'.1)
    | inr f ↦ (rw f, select-All p q xs (rw f at h))
  ]

  pub first_where-none :
      (p : A → Bool) (xs : List A) → first_where p xs ≡ none → All (λ x. p x ≡ false) xs
  first_where-none p [] h = tt
  first_where-none p (x ∷ xs) h = elim (Bool-cases (p x)) [
    | inl t ↦ cc (rw t at h)
    | inr f ↦ (f, first_where-none p xs (rw f at h))
  ]

  -- The row that a lookup in a table finds has what every row has.
  pub first_where-All {κ} :
      (P : A → Type κ) (p : A → Bool) (xs : List A) (x : A)
      → All P xs
      → first_where p xs ≡ some x
      → P x
  first_where-All P p [] x h e = cc
  first_where-All P p (y ∷ ys) x h e = elim (Bool-cases (p y)) [
    | inl t ↦ let q : y ≡ x = cc (rw t at e) in subst P q h.0
    | inr f ↦ first_where-All P p ys x h.1 (rw f at e)
  ]

  pub select-passes : (p : A → Bool) (xs : List A) → All (λ x. p x ≡ true) (select p xs)
  select-passes p [] = tt
  select-passes p (x ∷ xs) = elim (Bool-cases (p x)) [
    | inl t ↦ rw t (t, select-passes p xs)
    | inr f ↦ rw f (select-passes p xs)
  ]
