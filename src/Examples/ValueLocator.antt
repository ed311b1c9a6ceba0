-- ===== src/Examples/ValueLocator.antt =====
-- services/api/app/parsers/value_locator.py: a page on which one figure is printed in two words.
use finance_intelligence.Prelude.{
  List, Option, [], if◌then◌else◌, map, none, refl, some, ℕ, ◌+◌, ◌==◌, ◌∷◌, ◌≡◌, ◌≢◌,
}
use finance_intelligence.Prelude.Ascii.{codes}
use finance_intelligence.Ingestion.ValueLocator.Cache.{
  fresh, locate_all-eq-uncached, locate_uncached, locate_all,
}
use finance_intelligence.Ingestion.ValueLocator.{
  match_run, box_of_run, located_run, find_run, normalise, Document, union_bbox, Word,
  locate_in_words,
}
use finance_intelligence.Ingestion.ValueLocator.Runs.{locate_in_words-Occurs, Occurs}

abbrev word : List ℕ → ℕ → Word
word s x = record { text = s; x0 = x; top = 10; x1 = x + 5; bottom = 20 }

abbrev page : List Word
page = word (codes "Toplam") 0 ∷ word (codes "5.550.") 10 ∷ word (codes "109") 20 ∷ []

abbrev figure : List ℕ
figure = codes "5.550.109"

finds_figure : locate_in_words page figure ≡ some (record { x0 = 10; y0 = 10; x1 = 25; y1 = 20 })
unfolding locate_in_words located_run find_run match_run box_of_run union_bbox
finds_figure = refl

locate_in_words-Occurs_example :
    ((run : List Word) → located_run page figure ≡ some run → Occurs (normalise figure) page run)
    × ((run : List Word) → Occurs (normalise figure) page run → located_run page figure ≢ none)
unfolding normalise
locate_in_words-Occurs_example = locate_in_words-Occurs page figure refl

abbrev file : Document
file = record { page_count = some 2; extract_words = λ n. if n == 0 then some page else none }

abbrev questions : List (Option ℕ × List ℕ)
questions = (some 1, figure) ∷ (some 2, figure) ∷ (some 1, figure) ∷ (some 7, figure) ∷ []

locate_all-eq-uncached_example :
    locate_all file questions fresh ≡ map (λ q. locate_uncached file q.0 q.1) questions
locate_all-eq-uncached_example = locate_all-eq-uncached file questions
