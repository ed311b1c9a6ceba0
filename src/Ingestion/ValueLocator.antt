-- ===== src/Ingestion/ValueLocator.antt =====
-- services/api/app/parsers/value_locator.py: where on a page of a PDF a figure is printed. Texts are
-- lists of code points; coordinates, which are only compared, are natural numbers. What pdfplumber
-- makes of the file is a parameter.
pub mod Runs
pub mod Cache
use finance_intelligence.Prelude.{
  Bool, List, Option, [], if◌then◌else◌, is_empty, leb, length, ltb, max, min, none, not, some, suc,
  zero, ℕ, ◌&&◌, ◌++◌, ◌-◌, ◌==◌, ◌||◌, ◌∷◌,
}
use mathlib.Core.Option
use finance_intelligence.Orchestration.Store.{is_number}
use finance_intelligence.Prelude.Ascii.{eq_text, starts_with}
use finance_intelligence.Ingestion.Command.{joined}

pub record Word : Type 0 where
  pub text : List ℕ
  pub x0 : ℕ
  pub top : ℕ
  pub x1 : ℕ
  pub bottom : ℕ

pub record Box : Type 0 where
  pub x0 : ℕ
  pub y0 : ℕ
  pub x1 : ℕ
  pub y1 : ℕ

abbrev pub max_words_per_page : ℕ
max_words_per_page = 6000

abbrev pub max_words_per_value : ℕ
max_words_per_value = 6

-- `\s` of the language, which has the no-break space of the pattern in it.
unfoldable pub is_blank : ℕ → Bool
is_blank c =
    leb 9 c && leb c 13
    || leb 28 c && leb c 32
    || c == 133
    || c == 160
    || c == 5760
    || leb 8192 c && leb c 8202
    || c == 8232
    || c == 8233
    || c == 8239
    || c == 8287
    || c == 12288

-- The minus sign U+2212 becomes a hyphen.
unfoldable pub normalise : List ℕ → List ℕ
unfolding is_blank
normalise [] = []
normalise (c ∷ s) =
    let rest = normalise s in if is_blank c then rest else (if c == 8722 then b'-' else c) ∷ rest

abbrev pub word_box : Word → Box
word_box w = record { x0 = w.x0; y0 = w.top; x1 = w.x1; y1 = w.bottom }

abbrev pub union : Box → Box → Box
union a b = record {
  x0 = min a.x0 b.x0;
  y0 = min a.y0 b.y0;
  x1 = max a.x1 b.x1;
  y1 = max a.y1 b.y1;
}

-- `_union_bbox` of a word and those that follow it.
unfoldable pub union_bbox : Word → List Word → Box
union_bbox w [] = word_box w
union_bbox w (v ∷ ws) = union (word_box w) (union_bbox v ws)

-- The inner loop: how many more words may be joined, what has been joined, and the words that
-- follow. The result is the words that were joined from here on.
unfoldable pub match_run : ℕ → List ℕ → List ℕ → List Word → Option (List Word)
unfolding starts_with eq_text normalise
match_run zero target joined ws = none
match_run (suc n) target joined [] = none
match_run (suc n) target joined (w ∷ ws) =
    let longer = joined ++ normalise w.text in
    let rest = match_run n target longer ws in
    if eq_text longer target
    then some (w ∷ [])
    else if not (starts_with longer target)
    then none
    else Option.map (λ run. w ∷ run) rest

-- The outer loop, over the words at which a run may start.
unfoldable pub find_run : List ℕ → List Word → Option (List Word)
unfolding match_run
find_run target [] = none
find_run target (w ∷ ws) =
    let rest = find_run target ws in
    elim (match_run max_words_per_value target [] (w ∷ ws)) [ none ↦ rest | some run ↦ some run ]

unfoldable pub box_of_run : List Word → Option Box
unfolding union_bbox
box_of_run [] = none
box_of_run (w ∷ ws) = some (union_bbox w ws)

-- The words that spell the value, of which the source returns the box.
unfoldable pub located_run : List Word → List ℕ → Option (List Word)
unfolding find_run normalise
located_run words value =
    if is_empty (normalise value) then none else find_run (normalise value) words

unfoldable pub locate_in_words : List Word → List ℕ → Option Box
unfolding located_run box_of_run
locate_in_words words value = elim (located_run words value) [
  | none ↦ none
  | some run ↦ box_of_run run
]

-- A document: the number of its pages, if it can be opened, and the words of each page, if they can
-- be extracted.
pub record Document : Type 0 where
  pub page_count : Option ℕ
  pub extract_words : ℕ → Option (List Word)

-- `class PdfValueLocator`.
pub record PdfValueLocator : Type 0 where
  pub cached_page : Option ℕ
  pub cached_words : List Word

unfoldable pub within_limit : Option (List Word) → List Word
within_limit none = []
within_limit (some ws) = if ltb max_words_per_page (length ws) then [] else ws

-- What the `try` makes of a page: `none` where the page is not in the document, which returns at
-- once.
unfoldable pub read_page : Document → ℕ → Option (List Word)
unfolding within_limit
read_page d page_number = elim (d.page_count) [
  | none ↦ some []
  | some n ↦
      if leb 1 page_number && leb page_number n
      then some (within_limit (d.extract_words (page_number - 1)))
      else none
]

-- What is cached, and what is returned, after a page was read.
unfoldable pub keep_words : ℕ → PdfValueLocator → Option (List Word) → PdfValueLocator × List Word
keep_words page_number l none = (l, [])
keep_words page_number l (some ws) =
    (record { cached_page = some page_number; cached_words = ws }, ws)

unfoldable pub words_for_page : Document → ℕ → PdfValueLocator → PdfValueLocator × List Word
unfolding read_page keep_words
words_for_page d page_number l =
    if is_number l.cached_page page_number
    then (l, l.cached_words)
    else keep_words page_number l (read_page d page_number)

unfoldable pub locate :
    Document → Option ℕ → List ℕ → PdfValueLocator → PdfValueLocator × Option Box
unfolding words_for_page locate_in_words
locate d none value l = (l, none)
locate d (some page_number) value l =
    if page_number == 0 || is_empty value
    then (l, none)
    else let (l', words) = words_for_page d page_number l in (l', locate_in_words words value)
