-- ===== src/Orchestration/ToolDedup/Newest.antt =====
-- Which invocation `check_existing_invocation` of services/api/app/orchestration/tool_dedup.py
-- returns the result of.
use finance_intelligence.Prelude.Ascii.{eq_text_iff}
use finance_intelligence.Audit.{Fields}
use finance_intelligence.Prelude.{
  Bool, Bool-cases, List, [], arith, false, inl, inr, leb, ltb, some, ◌&&◌, ◌∷◌, ◌≡◌, ◌≤◌, none,
  select, true, ℕ,
}
use mathlib.Core.Path.{subst}
use finance_intelligence.Orchestration.Store.Rows.{
  first_where-passes, All-map, All, first_where-All, select-passes, select-All, first_where-none,
}
use finance_intelligence.Orchestration.Store.{first_where}
use mathlib.Core.Option.{some-injective}
use finance_intelligence.Orchestration.ToolDedup.{
  insert_newest, newest_first, ToolInvocation, existing_invocation, has_checksum,
  compute_arguments_checksum, is_same_tool,
}

-- Newest first.
abbrev IsDescending : List ToolInvocation → Type 0
IsDescending [] = Unit
IsDescending (i ∷ is) = All (λ k. k.created_at ≤ i.created_at) is × IsDescending is

module _ (P : ToolInvocation → Type 0) where
  All-insert :
      (i : ToolInvocation) (is : List ToolInvocation) → P i → All P is → All P (insert_newest i is)
  unfolding insert_newest
  All-insert i [] p h = (p, tt)
  All-insert i (k ∷ ks) p h = elim (Bool-cases (leb k.created_at i.created_at)) [
    | inl t ↦ rw t (p, h)
    | inr f ↦ rw f (h.0, All-insert i ks p h.1)
  ]

  insert-All :
      (i : ToolInvocation) (is : List ToolInvocation) → All P (insert_newest i is) → P i × All P is
  unfolding insert_newest
  insert-All i [] h = h
  insert-All i (k ∷ ks) h = elim (Bool-cases (leb k.created_at i.created_at)) [
    | inl t ↦ let h' : All P (i ∷ k ∷ ks) = rw t at h in (h'.0, h'.1)
    | inr f ↦
        let h' : All P (k ∷ insert_newest i ks) = rw f at h in
        let (p, rest) = insert-All i ks h'.1 in (p, (h'.0, rest))
  ]

  All-newest : (is : List ToolInvocation) → All P is → All P (newest_first is)
  unfolding newest_first
  All-newest [] h = tt
  All-newest (i ∷ is) h = All-insert i (newest_first is) h.0 (All-newest is h.1)

  newest-All : (is : List ToolInvocation) → All P (newest_first is) → All P is
  unfolding newest_first
  newest-All [] h = tt
  newest-All (i ∷ is) h =
      let (p, rest) = insert-All i (newest_first is) h in (p, newest-All is rest)

insert-IsDescending :
    (i : ToolInvocation) (is : List ToolInvocation)
    → IsDescending is
    → IsDescending (insert_newest i is)
unfolding insert_newest
insert-IsDescending i [] h = (tt, tt)
insert-IsDescending i (k ∷ ks) h = elim (Bool-cases (leb k.created_at i.created_at)) [
  | inl t ↦
      let older : k.created_at ≤ i.created_at = ground (arith, t) in
      let all_older =
        All-map (λ x. x.created_at ≤ k.created_at) (λ x. x.created_at ≤ i.created_at) ks
          (λ x p. omega (arith, p, older)) h.0 in
      rw t ((older, all_older), h)
  | inr f ↦
      let newer : i.created_at ≤ k.created_at = ground (arith, f) in
      rw f
        (All-insert (λ x. x.created_at ≤ k.created_at) i ks newer h.0, insert-IsDescending i ks h.1)
]

newest-IsDescending : (is : List ToolInvocation) → IsDescending (newest_first is)
unfolding newest_first
newest-IsDescending [] = tt
newest-IsDescending (i ∷ is) = insert-IsDescending i (newest_first is) (newest-IsDescending is)

-- The first row that passes a test in a descending list is a newest one that does.
first-newest :
    (test : ToolInvocation → Bool) (is : List ToolInvocation) (i : ToolInvocation)
    → IsDescending is
    → first_where test is ≡ some i
    → All (λ k. (test k && ltb i.created_at k.created_at) ≡ false) is
first-newest test [] i h e = tt
first-newest test (k ∷ ks) i h e = elim (Bool-cases (test k)) [
  | inl t ↦
      let q : k ≡ i = some-injective k i (rw t at e) in
      subst (λ x. All (λ z. (test z && ltb x.created_at z.created_at) ≡ false) (k ∷ ks)) q
        (
          ground arith,
          All-map (λ z. z.created_at ≤ k.created_at)
              (λ z. (test z && ltb k.created_at z.created_at) ≡ false) ks (λ z p. ground (arith, p))
              h.0,
        )
  | inr f ↦ (ground (arith, f), first-newest test ks i h.1 (rw f at e))
]

same_checksum :
    (dumps_sorted : Fields → List ℕ) (sha256 : List ℕ → List ℕ) (checksum : List ℕ)
    (i : ToolInvocation)
    → has_checksum dumps_sorted sha256 checksum i ≡ true
    → compute_arguments_checksum dumps_sorted sha256 i.arguments_json ≡ checksum
unfolding has_checksum
same_checksum dumps_sorted sha256 checksum i h = eq_text_iff _ checksum h

-- A result is reused exactly where it may be. The invocation whose result is returned is one of the
-- same tenant, analysis and tool, with arguments of the same checksum, and no such invocation is
-- newer; where nothing is returned, there is no such invocation in the table.
pub existing_invocation-newest :
    (dumps_sorted : Fields → List ℕ) (sha256 : List ℕ → List ℕ) (organization job : ℕ)
    (name : List ℕ) (arguments : Fields) (invocations : List ToolInvocation)
    → let checksum = compute_arguments_checksum dumps_sorted sha256 arguments in
      let again = has_checksum dumps_sorted sha256 checksum in
      let mine = is_same_tool organization job name in
      let existing =
        existing_invocation dumps_sorted sha256 organization job name arguments invocations in
      ((i : ToolInvocation)
        → existing ≡ some i
        → (mine i ≡ true)
          × (compute_arguments_checksum dumps_sorted sha256 i.arguments_json ≡ checksum)
          × All (λ k. (mine k && (again k && ltb i.created_at k.created_at)) ≡ false) invocations)
      × (existing ≡ none → All (λ k. (mine k && again k) ≡ false) invocations)
unfolding existing_invocation
existing_invocation-newest dumps_sorted sha256 organization job name arguments invocations =
    let checksum = compute_arguments_checksum dumps_sorted sha256 arguments in
    let again = has_checksum dumps_sorted sha256 checksum in
    let mine = is_same_tool organization job name in
    let rows = select mine invocations in
    (
      λ i e. (
        first_where-All (λ k. mine k ≡ true) again (newest_first rows) i
            (All-newest (λ k. mine k ≡ true) rows (select-passes mine invocations)) e,
        same_checksum dumps_sorted sha256 checksum i
            (first_where-passes again (newest_first rows) i e),
        select-All mine (λ k. again k && ltb i.created_at k.created_at) invocations
            (newest-All (λ k. (again k && ltb i.created_at k.created_at) ≡ false) rows
              (first-newest again (newest_first rows) i (newest-IsDescending rows) e)),
      ),
      λ e.
          select-All mine again invocations
            (newest-All (λ k. again k ≡ false) rows (first_where-none again (newest_first rows) e)),
    )
