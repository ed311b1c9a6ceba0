-- ===== src/Orchestration/Store/Counting.antt =====
-- How many rows of Orchestration/Store pass a test, after an insertion and after an update that
-- makes rows fail it, and what a lookup finds after an update.
use finance_intelligence.Orchestration.Store.Rows.{update_where-none}
use mathlib.Core.Path.{subst}
use finance_intelligence.Prelude.{
  Bool, Bool-cases, List, [], any, ap, arith, false, if◌then◌else◌, inl, inr, length, length-append,
  refl, select, select-append, some, suc, sym, true, ◌++◌, ◌+◌, ◌<◌, ◌∙◌, ◌∷◌, ◌≡◌, ◌≤◌,
}
use finance_intelligence.Orchestration.Store.{update_where, first_where}

module _ {ℓ} {A : Type ℓ} where
  pub length-select-snoc :
      (p : A → Bool) (xs : List A) (x : A)
      → length (select p (xs ++ x ∷ [])) ≡ length (select p xs) + (if p x then 1 else 0)
  length-select-snoc p xs x =
      let e = select-append p xs (x ∷ []) in
      rw e
        (length-append (select p xs) (select p (x ∷ [])) ∙ ap (λ n. length (select p xs) + n) one)
    where
      one : length (select p (x ∷ [])) ≡ (if p x then 1 else 0)
      one = ground arith

  -- Rows that fail the test once they are written to are not counted any more.
  pub length-select-update_where :
      (p t : A → Bool) (g : A → A) (xs : List A)
      → ((x : A) → p (g x) ≡ false)
      → length (select p (update_where t g xs)) ≤ length (select p xs)
  length-select-update_where p t g [] h = omega arith
  length-select-update_where p t g (x ∷ xs) h =
      let rest = length-select-update_where p t g xs h in
      let miss = h x in
      elim (Bool-cases (t x)) [ inl a ↦ rw (a, miss) (ground arith) | inr b ↦ rw b (ground arith) ]

  -- And the one that was found was counted.
  pub length-select-found :
      (p t : A → Bool) (g : A → A) (xs : List A) (old : A)
      → ((x : A) → p (g x) ≡ false)
      → first_where t xs ≡ some old
      → p old ≡ true
      → length (select p (update_where t g xs)) < length (select p xs)
  length-select-found p t g [] old h e o = cc
  length-select-found p t g (x ∷ xs) old h e o = elim (Bool-cases (t x)) [
    | inl a ↦
        let same : x ≡ old = cc (rw a at e) in
        let counted : p x ≡ true = subst (λ y. p y ≡ true) (sym same) o in
        let rest = length-select-update_where p t g xs h in rw (a, h x, counted) (omega arith)
    | inr b ↦ let rest = length-select-found p t g xs old h (rw b at e) o in rw b (ground arith)
  ]

  -- Where one row at most is written to, and it fails a test, a lookup by that test is the same.
  pub first_where-update_where :
      (p t : A → Bool) (g : A → A) (xs : List A) (old : A)
      → ((x : A) → p (g x) ≡ false)
      → first_where t xs ≡ some old
      → length (select t xs) ≤ 1
      → p old ≡ false
      → first_where p (update_where t g xs) ≡ first_where p xs
  first_where-update_where p t g [] old h e l o = refl
  first_where-update_where p t g (x ∷ xs) old h e l o = elim (Bool-cases (t x)) [
    | inl a ↦
        let same : x ≡ old = cc (rw a at e) in
        let passed : p x ≡ false = subst (λ y. p y ≡ false) (sym same) o in
        let short : suc (length (select t xs)) ≤ 1 = rw a at l in
        rw (a, h x, passed)
          (ap (first_where p) (update_where-none t g xs (none_left xs (omega arith))))
    | inr b ↦
        let rest = first_where-update_where p t g xs old h (rw b at e) (rw b at l) o in
        rw (b, rest) refl
  ]
    where
      none_left : (ys : List A) → length (select t ys) ≤ 0 → any t ys ≡ false
      none_left [] k = refl
      none_left (y ∷ ys) k = elim (Bool-cases (t y)) [
        | inl a ↦ let s : suc (length (select t ys)) ≤ 0 = rw a at k in ground arith
        | inr b ↦ rw b (none_left ys (rw b at k))
      ]

  -- The row of a key after it is written to, where the key is kept.
  pub first_where-updated :
      (t : A → Bool) (g : A → A) (xs : List A) (r : A)
      → ((x : A) → t (g x) ≡ t x)
      → first_where t xs ≡ some r
      → first_where t (update_where t g xs) ≡ some (g r)
  first_where-updated t g [] r k e = cc
  first_where-updated t g (x ∷ xs) r k e = elim (Bool-cases (t x)) [
    | inl a ↦ rw (a, k x, a) (ap some (ap g (cc (rw a at e))))
    | inr b ↦ rw (b, b) (first_where-updated t g xs r k (rw b at e))
  ]

  -- And the row of another key.
  pub first_where-elsewhere :
      (p t : A → Bool) (g : A → A) (xs : List A)
      → ((x : A) → p (g x) ≡ p x)
      → ((x : A) → t x ≡ true → p x ≡ false)
      → first_where p (update_where t g xs) ≡ first_where p xs
  first_where-elsewhere p t g [] k d = refl
  first_where-elsewhere p t g (x ∷ xs) k d =
      let rest = first_where-elsewhere p t g xs k d in
      elim (Bool-cases (t x)) [ inl a ↦ rw (a, k x, d x a) rest | inr b ↦ rw (b, rest) refl ]
