-- ===== src/Facts/Normalization.antt =====
-- services/api/app/services/normalization_service.py: how a printed figure, its scale, its currency,
-- its unit and its reporting basis are read. Texts are code points; upper and lower case, digits and
-- white space are those of ASCII.
use finance_intelligence.Prelude.Ascii.{
  eq_text, is_digit, is_in, is_member, is_space, lower, skip_spaces, starts_with, codes,
}
use finance_intelligence.Prelude.{
  Bool, List, Option, [], any, false, if◌then◌else◌, is_empty, length, map, none, not, select, some,
  suc, true, zero, ℕ, ◌&&◌, ◌==◌, ◌||◌, ◌∷◌,
}
use finance_intelligence.Orchestration.Store.{is_null}
use finance_intelligence.Facts.Decimal.{Decimal, decimal, negate}

-- `class NumberParseResult`.
pub data NumberWarning : Type 0 where
  empty_value missing_value forbidden_exponent_or_special_float ambiguous_number_format
        unparsable_number :
      NumberWarning

pub record NumberParseResult : Type 0 where
  pub value : Option Decimal
  pub is_percentage : Bool
  pub warning_codes : List NumberWarning

unfoldable pub no_number : NumberWarning → NumberParseResult
no_number w = record { value = none; is_percentage = false; warning_codes = w ∷ [] }

-- `str.rstrip` and `str.strip`.
unfoldable pub strip_end : List ℕ → List ℕ
unfolding is_space
strip_end [] = []
strip_end (c ∷ s) = let rest = strip_end s in if is_space c && is_empty rest then [] else c ∷ rest

unfoldable pub strip : List ℕ → List ℕ
strip s = strip_end (skip_spaces s)

-- `\d+e[+-]?\d+` somewhere in the text.
unfoldable pub starts_with_digit : List ℕ → Bool
unfolding is_digit
starts_with_digit [] = false
starts_with_digit (c ∷ s) = is_digit c

unfoldable pub is_exponent : List ℕ → Bool
unfolding starts_with_digit
is_exponent [] = false
is_exponent (c ∷ []) = false
is_exponent (c ∷ d ∷ s) =
    c == b'e' && (starts_with_digit (d ∷ s) || (d == b'+' || d == b'-') && starts_with_digit s)

unfoldable pub has_exponent : List ℕ → Bool
unfolding is_digit is_exponent
has_exponent [] = false
has_exponent (c ∷ s) = is_digit c && is_exponent s || has_exponent s

unfoldable pub is_missing : List ℕ → Bool
is_missing s = is_member s (
    (8212 ∷ [])
    ∷ codes "-"
    ∷ codes "N/A"
    ∷ codes "n/a"
    ∷ codes "null"
    ∷ codes "NULL"
    ∷ codes "None"
    ∷ []
    ∷ [])

unfoldable pub is_forbidden : List ℕ → Bool
is_forbidden s = has_exponent s || (is_in (codes "nan") s || is_in (codes "inf") s)

abbrev pub percent_word : List ℕ
percent_word = b'y' ∷ 252 ∷ b'z' ∷ b'd' ∷ b'e' ∷ []

-- `re.sub(r"(?i)yüzde", "", text)`: the number is of the code points still to be left out.
unfoldable pub remove_percent_word : ℕ → List ℕ → List ℕ
unfolding starts_with lower
remove_percent_word n [] = []
remove_percent_word zero (c ∷ s) =
    let kept = remove_percent_word 0 s in
    let left_out = remove_percent_word 4 s in
    if starts_with percent_word (lower (c ∷ s)) then left_out else c ∷ kept
remove_percent_word (suc n) (c ∷ s) = remove_percent_word n s

unfoldable pub is_percent_or_space : ℕ → Bool
unfolding is_space
is_percent_or_space c = c == b'%' || is_space c

-- `text.replace(c, "")`.
unfoldable pub without : ℕ → List ℕ → List ℕ
without c s = select (λ d. not (d == c)) s

abbrev pub has : ℕ → List ℕ → Bool
has c s = any (λ d. d == c) s

-- `text.rfind(".") > text.rfind(",")`, where both are there.
unfoldable pub dot_is_last : List ℕ → Bool
dot_is_last [] = false
dot_is_last (c ∷ s) =
    let rest = dot_is_last s in if has b'.' s || has b',' s then rest else c == b'.'

-- The number of code points after the only separator, or none if there are more of them.
unfoldable pub after_only : ℕ → List ℕ → Option ℕ
after_only c [] = none
after_only c (d ∷ s) =
    let rest = after_only c s in
    if d == c then (if has c s then none else some (length s)) else rest

-- `len(parts) == 2 and len(parts[1]) in (1, 2)`, and `len(parts) > 2` where there is a separator.
unfoldable pub is_decimal_place : Option ℕ → Bool
is_decimal_place none = false
is_decimal_place (some n) = n == 1 || n == 2

unfoldable pub with_point : List ℕ → List ℕ
with_point s = map (λ c. if c == b',' then b'.' else c) s

unfoldable pub is_hint : Option (List ℕ) → List ℕ → List ℕ → Bool
unfolding eq_text
is_hint none a b = false
is_hint (some h) a b = eq_text h a || eq_text h b

-- The text with a point for the decimal separator, and whether it was a guess.
unfoldable pub separated : Option (List ℕ) → List ℕ → List ℕ × List NumberWarning
unfolding dot_is_last without with_point after_only is_decimal_place is_hint
separated hint s =
    if has b'.' s && has b',' s
    then (if dot_is_last s then (without b',' s, []) else (with_point (without b'.' s), []))
    else (if has b',' s
        then (if is_decimal_place (after_only b',' s)
            then (with_point s, [])
            else (if is_null (after_only b',' s) || is_hint hint (codes "tr_TR") (codes "TR")
                then (without b',' s, [])
                else (without b',' s, ambiguous_number_format ∷ [])))
        else (if has b'.' s
            then (if is_decimal_place (after_only b'.' s)
                then (s, [])
                else (if is_null (after_only b'.' s)
                    then (without b'.' s, [])
                    else (if is_hint hint (codes "en_US") (codes "EN")
                        then (s, [])
                        else (without b'.' s, ambiguous_number_format ∷ []))))
            else (s, [])))

unfoldable pub number_of : Option (List ℕ) → Bool → Bool → List ℕ → NumberParseResult
number_of hint percentage negative s =
    let (text, warnings) = separated hint s in
    elim (decimal text) [
      | none ↦ no_number unparsable_number
      | some v ↦ record {
        value = some (if negative then negate v else v);
        is_percentage = percentage;
        warning_codes = warnings;
      }
    ]

-- `text[:-1]` of a text that ends with `)`.
unfoldable pub before_parenthesis : List ℕ → Option (List ℕ)
before_parenthesis [] = none
before_parenthesis (c ∷ []) = if c == b')' then some [] else none
before_parenthesis (c ∷ d ∷ s) = elim (before_parenthesis (d ∷ s)) [
  | none ↦ none
  | some t ↦ some (c ∷ t)
]

-- The sign of a text without white space, and what is left.
unfoldable pub sign_of : List ℕ → Bool × List ℕ
sign_of [] = (false, [])
sign_of (c ∷ s) =
    if c == b'('
    then (elim (before_parenthesis s) [ none ↦ (false, c ∷ s) | some t ↦ (true, t) ])
    else (if c == b'-' then (true, s) else (false, c ∷ s))

unfoldable pub parse_figure : Option (List ℕ) → List ℕ → NumberParseResult
parse_figure hint s =
    let percentage = has b'%' s || is_in percent_word (lower s) in
    let bare = remove_percent_word 0 (select (λ c. not (is_percent_or_space c)) s) in
    let (negative, t) = sign_of bare in number_of hint percentage negative t

unfoldable pub parse_financial_decimal : List ℕ → Option (List ℕ) → NumberParseResult
parse_financial_decimal raw hint =
    let s = strip raw in
    if is_empty s
    then no_number empty_value
    else (if is_missing s
        then no_number missing_value
        else (if is_forbidden (lower s)
            then no_number forbidden_exponent_or_special_float
            else parse_figure hint s))
