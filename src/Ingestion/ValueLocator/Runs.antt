-- ===== src/Ingestion/ValueLocator/Runs.antt =====
-- Which words `locate_in_words` of services/api/app/parsers/value_locator.py joins.
use finance_intelligence.Prelude.{
  Bool-cases, List, Option-cases, [], ap, arith, inl, inr, length, none, refl, some, suc, sym, true,
  zero, ℕ, ◌++◌, ◌∙◌, ◌∷◌, ◌≡◌, ◌≢◌, ◌≤◌, false, is_empty,
}
use mathlib.Core.Option.{some-injective}
use mathlib.Core.Path.{subst}
use mathlib.Core.List.{append_assoc, append-nil}
use finance_intelligence.Ingestion.ValueLocator.{
  normalise, max_words_per_value, match_run, Word, find_run, located_run,
}
use finance_intelligence.Prelude.Ascii.{starts_with, eq_text, eq_text_iff, eq_text_refl}

-- What the words spell.
unfoldable pub spelled : List Word → List ℕ
spelled [] = []
spelled (w ∷ ws) = normalise w.text ++ spelled ws

-- A run of words that starts a list and spells a text in at most so many words.
abbrev pub Starts : ℕ → List ℕ → List Word → List Word → Type 0
Starts n target ws run =
    (rest : List Word) × (ws ≡ run ++ rest)
    × (spelled run ≡ target)
    × (1 ≤ length run)
    × (length run ≤ n)

-- A run of words anywhere in a list.
abbrev pub Occurs : List ℕ → List Word → List Word → Type 0
Occurs target words run =
    (before : List Word) × (ws : List Word) × (words ≡ before ++ ws)
    × Starts max_words_per_value target ws run

starts_with-append : (xs ys : List ℕ) → starts_with xs (xs ++ ys) ≡ true
unfolding starts_with
starts_with-append [] [] = refl
starts_with-append [] (y ∷ ys) = refl
starts_with-append (x ∷ xs) ys = ground (arith, starts_with-append xs ys)

-- What the inner loop returns spells the rest of the target.
match_run_sound :
    (n : ℕ) (target joined : List ℕ) (ws run : List Word)
    → match_run n target joined ws ≡ some run
    → (rest : List Word) × (ws ≡ run ++ rest)
      × (joined ++ spelled run ≡ target)
      × (1 ≤ length run)
      × (length run ≤ n)
unfolding match_run spelled
match_run_sound zero target joined ws run e = absurd (cc e)
match_run_sound (suc n) target joined [] run e = absurd (cc e)
match_run_sound (suc n) target joined (w ∷ ws) run e =
    let longer = joined ++ normalise w.text in
    elim (Bool-cases (eq_text longer target)) [
      | inl t ↦
          let q : w ∷ [] ≡ run = some-injective _ _ (rw (t, match_run) at e) in
          subst
            (λ r.
              (rest : List Word) × (w ∷ ws ≡ r ++ rest)
              × (joined ++ spelled r ≡ target)
              × (1 ≤ length r)
              × (length r ≤ suc n))
            q
            (
              ws,
              refl,
              ap (λ x. joined ++ x) (append-nil (normalise w.text)) ∙ eq_text_iff longer target t,
              omega arith,
              omega arith,
            )
      | inr f ↦ elim (Bool-cases (starts_with longer target)) [
        | inr g ↦ absurd (cc (rw (f, g, match_run) at e))
        | inl s ↦ elim (Option-cases (match_run n target longer ws)) [
          | inl m ↦ absurd (cc (rw (f, s, m, match_run) at e))
          | inr (tail, m) ↦
              let q : w ∷ tail ≡ run = some-injective _ _ (rw (f, s, m, match_run) at e) in
              let (rest, split, spells, one, most) = match_run_sound n target longer ws tail m in
              subst
                (λ r.
                  (rest : List Word) × (w ∷ ws ≡ r ++ rest)
                  × (joined ++ spelled r ≡ target)
                  × (1 ≤ length r)
                  × (length r ≤ suc n))
                q
                (
                  rest,
                  ap (λ x. w ∷ x) split,
                  sym (append_assoc joined (normalise w.text) (spelled tail)) ∙ spells,
                  omega arith,
                  omega (arith, most),
                )
        ]
      ]
    ]

-- Where a run completes the target, the inner loop returns one.
match_run_complete :
    (n : ℕ) (target joined : List ℕ) (run rest : List Word)
    → joined ++ spelled run ≡ target
    → 1 ≤ length run
    → length run ≤ n
    → match_run n target joined (run ++ rest) ≢ none
unfolding match_run spelled
match_run_complete zero target joined [] rest e one most q = omega (arith, one)
match_run_complete zero target joined (w ∷ run) rest e one most q = omega (arith, most)
match_run_complete (suc n) target joined [] rest e one most q = omega (arith, one)
match_run_complete (suc n) target joined (w ∷ []) rest e one most q =
    let longer = joined ++ normalise w.text in
    let e' : longer ≡ target =
      sym (append-nil longer) ∙ append_assoc joined (normalise w.text) [] ∙ e in
    let t : eq_text longer target ≡ true =
      subst (λ x. eq_text longer x ≡ true) e' (eq_text_refl longer) in
    cc (rw (t, match_run) at q)
match_run_complete (suc n) target joined (w ∷ v ∷ run) rest e one most q =
    let longer = joined ++ normalise w.text in
    let e' : longer ++ spelled (v ∷ run) ≡ target =
      append_assoc joined (normalise w.text) (spelled (v ∷ run)) ∙ e in
    let s : starts_with longer target ≡ true =
      subst (λ x. starts_with longer x ≡ true) e' (starts_with-append longer (spelled (v ∷ run))) in
    elim (Bool-cases (eq_text longer target)) [
      | inl t ↦ cc (rw (t, match_run) at q)
      | inr f ↦ elim (Option-cases (match_run n target longer (v ∷ run ++ rest))) [
        | inl m ↦
            match_run_complete n target longer (v ∷ run) rest e' (omega arith) (omega (arith, most))
              m
        | inr (tail, m) ↦ cc (rw (f, s, m, match_run) at q)
      ]
    ]

match_run-Starts :
    (target : List ℕ) (ws run : List Word)
    → match_run max_words_per_value target [] ws ≡ some run
    → Starts max_words_per_value target ws run
match_run-Starts target ws run e = match_run_sound max_words_per_value target [] ws run e

find_run_sound :
    (target : List ℕ) (ws run : List Word) → find_run target ws ≡ some run → Occurs target ws run
unfolding find_run
find_run_sound target [] run e = absurd (cc e)
find_run_sound target (w ∷ ws) run e =
    elim (Option-cases (match_run max_words_per_value target [] (w ∷ ws))) [
      | inl m ↦
          let (before, vs, split, starts) = find_run_sound target ws run (rw (m, find_run) at e) in
          (w ∷ before, vs, ap (λ x. w ∷ x) split, starts)
      | inr (found, m) ↦
          let q : found ≡ run = some-injective _ _ (rw (m, find_run) at e) in
          (
            [],
            w ∷ ws,
            refl,
            subst (Starts max_words_per_value target (w ∷ ws)) q
                (match_run-Starts target (w ∷ ws) found m),
          )
    ]

find_run_complete :
    (target : List ℕ) (before run rest : List Word)
    → spelled run ≡ target
    → 1 ≤ length run
    → length run ≤ max_words_per_value
    → find_run target (before ++ (run ++ rest)) ≢ none
unfolding find_run
find_run_complete target [] [] rest spells one most e = omega (arith, one)
find_run_complete target [] (w ∷ run) rest spells one most e =
    elim (Option-cases (match_run max_words_per_value target [] (w ∷ run ++ rest))) [
      | inl m ↦ match_run_complete max_words_per_value target [] (w ∷ run) rest spells one most m
      | inr (found, m) ↦ cc (rw (m, find_run) at e)
    ]
find_run_complete target (b ∷ before) run rest spells one most e =
    elim (Option-cases (match_run max_words_per_value target [] (b ∷ before ++ (run ++ rest)))) [
      | inl m ↦ find_run_complete target before run rest spells one most (rw (m, find_run) at e)
      | inr (found, m) ↦ cc (rw (m, find_run) at e)
    ]

-- The locator reports nothing rather than guessing, and finds what is there. For a value that is not
-- blank: the words whose box it returns stand one after the other on the page, are at most six, and
-- spell the value when blanks are dropped; and where some run of one to six words of the page spells
-- the value, it returns a box.
pub locate_in_words-Occurs :
    (words : List Word) (value : List ℕ)
    → is_empty (normalise value) ≡ false
    → ((run : List Word) → located_run words value ≡ some run → Occurs (normalise value) words run)
      × ((run : List Word) → Occurs (normalise value) words run → located_run words value ≢ none)
unfolding located_run
locate_in_words-Occurs words value full = (
  λ run e. find_run_sound (normalise value) words run (rw (full, located_run) at e),
  λ run o e.
      let (before, ws, split, (rest, split', spells, one, most)) = o in
      let whole : words ≡ before ++ (run ++ rest) = split ∙ ap (λ x. before ++ x) split' in
      find_run_complete (normalise value) before run rest spells one most
        (subst (λ x. find_run (normalise value) x ≡ none) whole (rw (full, located_run) at e)),
)
