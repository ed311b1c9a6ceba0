-- ===== src/Facts/Signs.antt =====
-- The two ways to print a negative figure, for `parse_financial_decimal` of
-- services/api/app/services/normalization_service.py.
use finance_intelligence.Prelude.{
  Bool, List, [], arith, false, leb, not, refl, select, true, ℕ, ◌&&◌, ◌<◌, ◌==◌, ◌||◌, ◌∷◌, ◌≡◌,
  Option, some, sym, ◌++◌, ◌∙◌,
}
use finance_intelligence.Orchestration.Store.Rows.{All, All-map}
use finance_intelligence.Prelude.Ascii.{
  is_space, is_in, to_lower, lower, is_digit, starts_with, skip_spaces, is_member, eq_text, codes,
}
use finance_intelligence.Facts.Normalization.{
  has, remove_percent_word, is_percent_or_space, has_exponent, is_exponent, strip_end,
  before_parenthesis, is_missing, parse_financial_decimal, strip, is_forbidden, parse_figure,
  sign_of, number_of,
}

-- Digits and separators.
unfoldable pub is_figure : ℕ → Bool
unfolding is_digit
is_figure c = is_digit c || (c == b'.' || c == b',')

-- Those, the parentheses, the signs and the slash.
unfoldable is_plain : ℕ → Bool
is_plain c = leb b'(' c && leb c b'9'

-- A text of digits and separators.
abbrev pub IsFigure : List ℕ → Type 0
IsFigure s = All (λ c. is_figure c ≡ true) s

figure-is_plain : (c : ℕ) → is_figure c ≡ true → is_plain c ≡ true
unfolding is_figure is_plain is_digit
figure-is_plain c h = ground arith

abbrev Plain : List ℕ → Type 0
Plain s = All (λ c. is_plain c ≡ true) s

lower-Plain : (s : List ℕ) → Plain s → lower s ≡ s
unfolding lower to_lower is_plain
lower-Plain [] h = refl
lower-Plain (c ∷ s) h =
    let rest = lower-Plain s h.1 in
    let p = h.0 in
    let upper : (leb b'A' c && leb c b'Z') ≡ false = ground arith in rw (upper, rest) refl

strip_end-Plain : (s : List ℕ) → Plain s → strip_end s ≡ s
unfolding strip_end is_space is_plain
strip_end-Plain [] h = refl
strip_end-Plain (c ∷ s) h =
    let rest = strip_end-Plain s h.1 in
    let p = h.0 in
    let space : (leb 9 c && leb c 13 || leb 28 c && leb c 32) ≡ false = ground arith in
    rw (space, rest) refl

skip_spaces-Plain : (c : ℕ) (s : List ℕ) → is_plain c ≡ true → skip_spaces (c ∷ s) ≡ c ∷ s
unfolding skip_spaces is_space is_plain
skip_spaces-Plain c s p =
    let space : (leb 9 c && leb c 13 || leb 28 c && leb c 32) ≡ false = ground arith in
    rw space refl

-- A word that begins with a letter, or with any code point past the digits, is in no such text.
is_in-Plain : (w : ℕ) (ws s : List ℕ) → b'9' < w → Plain s → is_in (w ∷ ws) s ≡ false
unfolding is_in starts_with is_plain
is_in-Plain w ws [] l h = refl
is_in-Plain w ws (c ∷ s) l h =
    let rest = is_in-Plain w ws s l h.1 in
    let p = h.0 in let miss : (w == c) ≡ false = ground arith in rw (miss, rest) refl

has_exponent-Plain : (s : List ℕ) → Plain s → has_exponent s ≡ false
unfolding has_exponent is_exponent is_plain
has_exponent-Plain [] h = refl
has_exponent-Plain (c ∷ []) h = ground arith
has_exponent-Plain (c ∷ d ∷ []) h = ground (arith, has_exponent-Plain (d ∷ []) h.1)
has_exponent-Plain (c ∷ d ∷ e ∷ s) h =
    let rest = has_exponent-Plain (d ∷ e ∷ s) h.1 in
    let p = h.1.0 in let miss : (d == b'e') ≡ false = ground arith in rw (miss, rest) (ground arith)

no_percent : (s : List ℕ) → Plain s → has b'%' s ≡ false
unfolding is_plain
no_percent [] h = refl
no_percent (c ∷ s) h = let p = h.0 in let rest = no_percent s h.1 in ground arith

kept-Plain : (s : List ℕ) → Plain s → select (λ c. not (is_percent_or_space c)) s ≡ s
unfolding is_percent_or_space is_space is_plain
kept-Plain [] h = refl
kept-Plain (c ∷ s) h =
    let rest = kept-Plain s h.1 in
    let p = h.0 in
    let miss : (c == b'%' || (leb 9 c && leb c 13 || leb 28 c && leb c 32)) ≡ false =
      ground arith in
    rw (miss, rest) refl

remove-Plain : (s : List ℕ) → Plain s → remove_percent_word 0 s ≡ s
unfolding remove_percent_word starts_with is_plain lower to_lower
remove-Plain [] h = refl
remove-Plain (c ∷ s) h =
    let rest = remove-Plain s h.1 in
    let p = h.0 in
    let upper : (leb b'A' c && leb c b'Z') ≡ false = ground arith in
    let miss : (b'y' == c) ≡ false = ground arith in rw (upper, miss, rest) refl

-- A text of such characters is read by its sign and its separators alone.
Plain-number_of :
    (hint : Option (List ℕ)) (c : ℕ) (s : List ℕ)
    → Plain (c ∷ s)
    → is_missing (c ∷ s) ≡ false
    → parse_financial_decimal (c ∷ s) hint
      ≡ number_of hint false (sign_of (c ∷ s)).0 (sign_of (c ∷ s)).1
unfolding parse_financial_decimal strip is_forbidden parse_figure
Plain-number_of hint c s h m =
    rw
      (
        unspaced,
        strip_end-Plain t h,
        m,
        lower-Plain t h,
        has_exponent-Plain t h,
        is_in-Plain b'n' (codes "an") t (omega arith) h,
        is_in-Plain b'i' (codes "nf") t (omega arith) h,
        no_percent t h,
        is_in-Plain b'y' (252 ∷ b'z' ∷ b'd' ∷ b'e' ∷ []) t (omega arith) h,
        kept-Plain t h,
        remove-Plain t h,
      )
      refl
  where
    t : List ℕ
    t = c ∷ s

    unspaced : skip_spaces (c ∷ s) ≡ c ∷ s
    unspaced = skip_spaces-Plain c s h.0

before_parenthesis-append : (s : List ℕ) → before_parenthesis (s ++ b')' ∷ []) ≡ some s
unfolding before_parenthesis
before_parenthesis-append [] = refl
before_parenthesis-append (c ∷ []) = refl
before_parenthesis-append (c ∷ d ∷ s) = rw (before_parenthesis-append (d ∷ s)) refl

Plain-append : (s : List ℕ) → IsFigure s → Plain (s ++ b')' ∷ [])
unfolding is_plain
Plain-append [] h = (refl, tt)
Plain-append (c ∷ s) h = (figure-is_plain c h.0, Plain-append s h.1)

-- A figure in parentheses is read as the same figure after a minus: for any text of digits, points
-- and commas that is not empty, and any locale hint, the value, the sign and the warnings are the
-- same, also where the figure can not be read.
pub parentheses_are_a_minus :
    (hint : Option (List ℕ)) (c : ℕ) (s : List ℕ)
    → IsFigure (c ∷ s)
    → parse_financial_decimal (b'(' ∷ (c ∷ s) ++ b')' ∷ []) hint
      ≡ parse_financial_decimal (b'-' ∷ c ∷ s) hint
unfolding is_plain is_missing is_member eq_text sign_of
parentheses_are_a_minus hint c s h =
    let figure = All-map _ _ (c ∷ s) figure-is_plain h in
    let inner = before_parenthesis-append (c ∷ s) in
    let left =
      Plain-number_of hint b'(' ((c ∷ s) ++ b')' ∷ []) (refl, Plain-append (c ∷ s) h) refl in
    let right = Plain-number_of hint b'-' (c ∷ s) (refl, figure) refl in
    rw inner at left ∙ sym right
