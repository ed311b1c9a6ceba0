-- ===== src/Facts/Decimal.antt =====
-- The decimals that services/api/app/services/normalization_service.py makes: `decimal.Decimal` of a
-- text, its negation and its product with a whole number, for figures of up to 28 digits, which the
-- precision of the context leaves as they are. The digits are those of ASCII.
use finance_intelligence.Prelude.Ascii.{is_digit, lower, to_lower, eq_text, after, codes}
use finance_intelligence.Prelude.{
  Bool, List, Option, [], false, if◌then◌else◌, is_empty, leb, length, none, not, select, some, suc,
  true, zero, ℕ, ◌&&◌, ◌*◌, ◌++◌, ◌+◌, ◌-◌, ◌==◌, ◌||◌, ◌∷◌,
}
use finance_intelligence.Facts.{ℤ, pos, negsuc}

-- A coefficient and a power of ten, or a value that is no number: an infinity or a NaN.
pub data Decimal : Type 0 where
  finite : Bool → ℕ → ℤ → Decimal
  special : Bool → Decimal

-- `int(digits)`, from the digits read so far.
unfoldable pub int_from : ℕ → List ℕ → ℕ
int_from n [] = n
int_from n (c ∷ s) = int_from (10 * n + (c - b'0')) s

-- The digits that a text begins with, and the rest.
unfoldable pub leading_digits : List ℕ → List ℕ × List ℕ
unfolding is_digit
leading_digits [] = ([], [])
leading_digits (c ∷ s) =
    let rest = leading_digits s in if is_digit c then (c ∷ rest.0, rest.1) else ([], c ∷ s)

unfoldable pub difference : ℕ → ℕ → ℤ
difference m n = if leb n m then pos (m - n) else negsuc (n - m - 1)

-- `-n`.
unfoldable pub opposite : ℕ → ℤ
opposite zero = pos zero
opposite (suc n) = negsuc n

-- The digits of an exponent to the end of the text, and what the digits after the point take off.
unfoldable pub exponent_digits : Bool → ℕ → List ℕ → Option ℤ
unfolding leading_digits int_from difference opposite
exponent_digits negative places s =
    let (digits, rest) = leading_digits s in
    if is_empty digits || not (is_empty rest)
    then none
    else (if negative
        then some (opposite (int_from 0 digits + places))
        else some (difference (int_from 0 digits) places))

unfoldable pub signed_exponent : ℕ → List ℕ → Option ℤ
unfolding exponent_digits
signed_exponent places [] = none
signed_exponent places (c ∷ s) =
    if c == b'-'
    then exponent_digits true places s
    else (if c == b'+'
        then exponent_digits false places s
        else exponent_digits false places (c ∷ s))

unfoldable pub exponent_of : ℕ → List ℕ → Option ℤ
unfolding signed_exponent opposite to_lower
exponent_of places [] = some (opposite places)
exponent_of places (c ∷ s) = if to_lower c == b'e' then signed_exponent places s else none

-- The digits after a point, if there is one.
unfoldable pub fraction_of : List ℕ → List ℕ × List ℕ
unfolding leading_digits
fraction_of [] = ([], [])
fraction_of (c ∷ s) = if c == b'.' then leading_digits s else ([], c ∷ s)

unfoldable pub is_special : List ℕ → Bool
unfolding lower eq_text after leading_digits
is_special s =
    eq_text (lower s) (codes "inf")
    || (eq_text (lower s) (codes "infinity")
        || (is_nan (after (codes "nan") s) || is_nan (after (codes "snan") s)))
  where
    is_nan : Option (List ℕ) → Bool
    is_nan none = false
    is_nan (some t) = is_empty (leading_digits t).1

unfoldable pub unsigned_decimal : Bool → List ℕ → Option Decimal
unfolding leading_digits fraction_of exponent_of int_from is_special
unsigned_decimal negative s =
    let (whole, rest) = leading_digits s in
    let (fraction, end) = fraction_of rest in
    if is_empty whole && is_empty fraction
    then (if is_special s then some (special negative) else none)
    else (elim (exponent_of (length fraction) end) [
      | none ↦ none
      | some e ↦ some (finite negative (int_from 0 (whole ++ fraction)) e)
    ])

unfoldable pub signed_decimal : List ℕ → Option Decimal
unfolding unsigned_decimal
signed_decimal [] = none
signed_decimal (c ∷ s) =
    if c == b'-'
    then unsigned_decimal true s
    else (if c == b'+' then unsigned_decimal false s else unsigned_decimal false (c ∷ s))

-- `Decimal(text)` on a text without white space, which raises `InvalidOperation`: `none`.
unfoldable pub decimal : List ℕ → Option Decimal
unfolding signed_decimal
decimal s = signed_decimal (select (λ c. not (c == b'_')) s)

-- `-val`, where the negation of a zero has no sign.
unfoldable pub negate : Decimal → Decimal
negate (finite b zero e) = finite false zero e
negate (finite b (suc n) e) = finite (not b) (suc n) e
negate (special b) = special (not b)

-- `val * factor`.
unfoldable pub times : Decimal → ℕ → Decimal
times (finite b n e) factor = finite b (n * factor) e
times (special b) factor = special b
