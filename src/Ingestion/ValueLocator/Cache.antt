-- ===== src/Ingestion/ValueLocator/Cache.antt =====
-- That the cache of services/api/app/parsers/value_locator.py changes no answer.
use mathlib.Core.Option.{some-injective}
use mathlib.Core.Path.{subst}
use finance_intelligence.Orchestration.Store.{is_number}
use finance_intelligence.Prelude.{
  List, Option, [], none, some, ℕ, ◌∷◌, ◌≡◌, ==_iff, Bool-cases, ap, inl, inr, is_empty, map, refl,
  true, ◌==◌, ◌||◌,
}
use finance_intelligence.Ingestion.ValueLocator.{
  PdfValueLocator, words_for_page, locate, read_page, Document, Box, keep_words, locate_in_words,
  Word,
}

-- A call of a locator that has read nothing yet.
abbrev pub fresh : PdfValueLocator
fresh = record { cached_page = none; cached_words = [] }

abbrev pub locate_uncached : Document → Option ℕ → List ℕ → Option Box
locate_uncached d page_number value = (locate d page_number value fresh).1

-- The answers of one locator to a list of questions.
unfoldable pub locate_all :
    Document → List (Option ℕ × List ℕ) → PdfValueLocator → List (Option Box)
locate_all d [] l = []
locate_all d (q ∷ qs) l = let (l', box) = locate d q.0 q.1 l in box ∷ locate_all d qs l'

-- The cache holds the words of the page that it names.
abbrev IsCoherent : Document → PdfValueLocator → Type 0
IsCoherent d l = (n : ℕ) → l.cached_page ≡ some n → read_page d n ≡ some l.cached_words

keep-IsCoherent :
    (d : Document) (n : ℕ) (l : PdfValueLocator) (o : Option (List Word))
    → read_page d n ≡ o
    → IsCoherent d l
    → IsCoherent d (keep_words n l o).0
unfolding keep_words
keep-IsCoherent d n l none e h = h
keep-IsCoherent d n l (some ws) e h =
    λ m q. subst (λ k. read_page d k ≡ some ws) (some-injective n m q) e

keep-words :
    (n : ℕ) (l : PdfValueLocator) (o : Option (List Word))
    → (keep_words n l o).1 ≡ (keep_words n fresh o).1
unfolding keep_words
keep-words n l none = refl
keep-words n l (some ws) = refl

is_number_iff : (o : Option ℕ) (n : ℕ) → is_number o n ≡ true → o ≡ some n
is_number_iff none n h = cc
is_number_iff (some m) n h = ap some ((==_iff m n).0 h)

words-IsCoherent :
    (d : Document) (n : ℕ) (l : PdfValueLocator)
    → IsCoherent d l
    → IsCoherent d (words_for_page d n l).0
      × ((words_for_page d n l).1 ≡ (words_for_page d n fresh).1)
unfolding words_for_page keep_words
words-IsCoherent d n l h = elim (Bool-cases (is_number l.cached_page n)) [
  | inl t ↦
      let e : read_page d n ≡ some l.cached_words = h n (is_number_iff l.cached_page n t) in
      (rw (t, words_for_page) h, rw (t, words_for_page, e) refl)
  | inr f ↦ (
    rw (f, words_for_page) (keep-IsCoherent d n l (read_page d n) refl h),
    rw (f, words_for_page) (keep-words n l (read_page d n)),
  )
]

locate-IsCoherent :
    (d : Document) (page_number : Option ℕ) (value : List ℕ) (l : PdfValueLocator)
    → IsCoherent d l
    → IsCoherent d (locate d page_number value l).0
      × ((locate d page_number value l).1 ≡ locate_uncached d page_number value)
unfolding locate
locate-IsCoherent d none value l h = (h, refl)
locate-IsCoherent d (some n) value l h = elim (Bool-cases (n == 0 || is_empty value)) [
  | inl t ↦ rw (t, locate_uncached) (h, refl)
  | inr f ↦
      let (kept, same) = words-IsCoherent d n l h in
      rw (f, locate_uncached) (kept, ap (λ ws. locate_in_words ws value) same)
]

-- The cache is transparent: a locator answers every sequence of questions about a document as a new
-- locator for each question would, pages out of range and pages that cannot be read among them.
pub locate_all-eq-uncached :
    (d : Document) (qs : List (Option ℕ × List ℕ))
    → locate_all d qs fresh ≡ map (λ q. locate_uncached d q.0 q.1) qs
unfolding locate_all
locate_all-eq-uncached d qs = go qs fresh (λ n e. absurd cc)
  where
    go :
        (qs : List (Option ℕ × List ℕ)) (l : PdfValueLocator)
        → IsCoherent d l
        → locate_all d qs l ≡ map (λ q. locate_uncached d q.0 q.1) qs
    go [] l h = refl
    go (q ∷ qs) l h =
        let (kept, same) = locate-IsCoherent d q.0 q.1 l h in
        let rest = go qs (locate d q.0 q.1 l).0 kept in cc
