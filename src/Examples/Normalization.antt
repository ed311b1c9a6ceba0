-- ===== src/Examples/Normalization.antt =====
-- services/api/app/services/normalization_service.py: printed figures and currencies.
use finance_intelligence.Prelude.{[], false, none, ok, refl, some, true, ◌∷◌, ◌≡◌}
use finance_intelligence.Facts.Decimal.{
  int_from, leading_digits, difference, opposite, exponent_digits, signed_exponent, exponent_of,
  fraction_of, is_special, unsigned_decimal, signed_decimal, decimal, negate, finite,
}
use finance_intelligence.Facts.Normalization.{
  no_number, strip_end, strip, starts_with_digit, is_exponent, has_exponent, is_missing,
  is_forbidden, remove_percent_word, is_percent_or_space, without, dot_is_last, after_only,
  is_decimal_place, with_point, is_hint, separated, number_of, before_parenthesis, sign_of,
  parse_figure, parse_financial_decimal, ambiguous_number_format,
  forbidden_exponent_or_special_float,
}
use finance_intelligence.Facts.Names.{canonical, lookup, without_alias, allowed, normalize_currency}
use finance_intelligence.Prelude.Ascii.{
  is_in, starts_with, lower, upper, to_lower, to_upper, eq_text, is_member, codes, skip_spaces,
  is_space, is_digit, after,
}
use finance_intelligence.Facts.{pos, negsuc}
use finance_intelligence.Facts.Signs.{parentheses_are_a_minus, is_figure}

-- 1.234.567,89 and 1,234,567.89.
turkish :
    (parse_financial_decimal (codes " 1.234.567,89 ") none).value
    ≡ some (finite false 123456789 (negsuc 1))
unfolding int_from leading_digits difference opposite exponent_digits signed_exponent exponent_of
    fraction_of is_special unsigned_decimal signed_decimal decimal negate no_number strip_end strip
    starts_with_digit is_exponent has_exponent is_missing is_forbidden remove_percent_word
    is_percent_or_space without dot_is_last after_only is_decimal_place with_point is_hint separated
    number_of before_parenthesis sign_of parse_figure parse_financial_decimal is_in starts_with
    lower to_lower eq_text is_member skip_spaces is_space is_digit after
turkish = refl

english :
    (parse_financial_decimal (codes "1,234,567.89") none).value
    ≡ some (finite false 123456789 (negsuc 1))
unfolding int_from leading_digits difference opposite exponent_digits signed_exponent exponent_of
    fraction_of is_special unsigned_decimal signed_decimal decimal negate no_number strip_end strip
    starts_with_digit is_exponent has_exponent is_missing is_forbidden remove_percent_word
    is_percent_or_space without dot_is_last after_only is_decimal_place with_point is_hint separated
    number_of before_parenthesis sign_of parse_figure parse_financial_decimal is_in starts_with
    lower to_lower eq_text is_member skip_spaces is_space is_digit after
english = refl

-- One comma with three digits after it is a guess.
guessed : parse_financial_decimal (codes "1,250 %") none ≡ record {
  value = some (finite false 1250 (pos 0));
  is_percentage = true;
  warning_codes = ambiguous_number_format ∷ [];
}
unfolding int_from leading_digits difference opposite exponent_digits signed_exponent exponent_of
    fraction_of is_special unsigned_decimal signed_decimal decimal negate no_number strip_end strip
    starts_with_digit is_exponent has_exponent is_missing is_forbidden remove_percent_word
    is_percent_or_space without dot_is_last after_only is_decimal_place with_point is_hint separated
    number_of before_parenthesis sign_of parse_figure parse_financial_decimal is_in starts_with
    lower to_lower eq_text is_member skip_spaces is_space is_digit after
guessed = refl

exponent_is_refused :
    (parse_financial_decimal (codes "1.5e5") none).warning_codes
    ≡ forbidden_exponent_or_special_float ∷ []
unfolding int_from leading_digits difference opposite exponent_digits signed_exponent exponent_of
    fraction_of is_special unsigned_decimal signed_decimal decimal negate no_number strip_end strip
    starts_with_digit is_exponent has_exponent is_missing is_forbidden remove_percent_word
    is_percent_or_space without dot_is_last after_only is_decimal_place with_point is_hint separated
    number_of before_parenthesis sign_of parse_figure parse_financial_decimal is_in starts_with
    lower to_lower eq_text is_member skip_spaces is_space is_digit after
exponent_is_refused = refl

-- The test for an exponent asks for a digit before the letter.
exponent_after_point :
    parse_financial_decimal (codes "1.e5") none
    ≡ record { value = some (finite false 1 (pos 5)); is_percentage = false; warning_codes = [] }
unfolding int_from leading_digits difference opposite exponent_digits signed_exponent exponent_of
    fraction_of is_special unsigned_decimal signed_decimal decimal negate no_number strip_end strip
    starts_with_digit is_exponent has_exponent is_missing is_forbidden remove_percent_word
    is_percent_or_space without dot_is_last after_only is_decimal_place with_point is_hint separated
    number_of before_parenthesis sign_of parse_figure parse_financial_decimal is_in starts_with
    lower to_lower eq_text is_member skip_spaces is_space is_digit after
exponent_after_point = refl

-- Two signs cancel.
two_signs : (parse_financial_decimal (codes "(-5)") none).value ≡ some (finite false 5 (pos 0))
unfolding int_from leading_digits difference opposite exponent_digits signed_exponent exponent_of
    fraction_of is_special unsigned_decimal signed_decimal decimal negate no_number strip_end strip
    starts_with_digit is_exponent has_exponent is_missing is_forbidden remove_percent_word
    is_percent_or_space without dot_is_last after_only is_decimal_place with_point is_hint separated
    number_of before_parenthesis sign_of parse_figure parse_financial_decimal is_in starts_with
    lower to_lower eq_text is_member skip_spaces is_space is_digit after
two_signs = refl

lira : normalize_currency (codes " tl ") ≡ ok (codes "TRY")
unfolding canonical lookup without_alias allowed normalize_currency upper to_upper strip strip_end
    skip_spaces is_space eq_text is_member
lira = refl

parentheses_are_a_minus_example :
    parse_financial_decimal (codes "(1.250,5)") none
    ≡ parse_financial_decimal (codes "-1.250,5") none
unfolding is_figure is_digit
parentheses_are_a_minus_example =
    parentheses_are_a_minus none b'1' (codes ".250,5")
      (refl, (refl, (refl, (refl, (refl, (refl, (refl, tt)))))))
