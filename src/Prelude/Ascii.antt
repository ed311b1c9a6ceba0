-- ===== src/Prelude/Ascii.antt =====
-- Texts that the program walks, as lists of code points; the character classes are those of ASCII.
use finance_intelligence.Prelude.{◌≡◌, arith}
use Prim.Native.Nat.{ℕ, ◌+◌, ◌-◌}
use Prim.Native.Char.{code}
use Prim.Native.String.{String}
use mathlib.Core.Path.{◌≡◌, refl}
use native.Mathlib.Omega.{arith}
use mathlib.Core.Bool.{Bool, true, false, ◌&&◌, ◌||◌}
use mathlib.Core.List.{List, [], ◌∷◌}
use mathlib.Core.Option.{Option, none, some}
use finance_intelligence.Prelude.Tests.{leb, ◌==◌, if◌then◌else◌}

abbrev pub codes : String → List ℕ
codes String.[] = []
codes (String.◌∷◌ c s) = code c ∷ codes s

unfoldable pub is_digit : ℕ → Bool
is_digit c = leb b'0' c && leb c b'9'

-- `str.lower` and `str.casefold` on ASCII.
unfoldable pub to_lower : ℕ → ℕ
to_lower c = if leb b'A' c && leb c b'Z' then c + 32 else c

-- `\w`.
unfoldable pub is_word : ℕ → Bool
unfolding is_digit to_lower
is_word c = is_digit c || leb b'a' (to_lower c) && leb (to_lower c) b'z' || c == b'_'

-- `\s`.
unfoldable pub is_space : ℕ → Bool
is_space c = leb 9 c && leb c 13 || leb 28 c && leb c 32

-- `text.startswith(prefix)`, the prefix first.
unfoldable pub starts_with : List ℕ → List ℕ → Bool
starts_with [] s = true
starts_with (p ∷ ps) [] = false
starts_with (p ∷ ps) (c ∷ s) = p == c && starts_with ps s

-- `part in text`.
unfoldable pub is_in : List ℕ → List ℕ → Bool
unfolding starts_with
is_in part [] = starts_with part []
is_in part (c ∷ s) = starts_with part (c ∷ s) || is_in part s

-- What follows a prefix that is read without regard to case; the prefix is in lower case.
unfoldable pub after : List ℕ → List ℕ → Option (List ℕ)
unfolding to_lower
after [] s = some s
after (p ∷ ps) [] = none
after (p ∷ ps) (c ∷ s) = if p == to_lower c then after ps s else none

unfoldable pub skip_spaces : List ℕ → List ℕ
unfolding is_space
skip_spaces [] = []
skip_spaces (c ∷ s) = if is_space c then skip_spaces s else c ∷ s

-- `==` on texts.
unfoldable pub eq_text : List ℕ → List ℕ → Bool
eq_text [] [] = true
eq_text [] (d ∷ t) = false
eq_text (c ∷ s) [] = false
eq_text (c ∷ s) (d ∷ t) = c == d && eq_text s t

unfoldable pub lower : List ℕ → List ℕ
unfolding to_lower
lower [] = []
lower (c ∷ s) = to_lower c ∷ lower s

-- `text in texts`.
unfoldable pub is_member : List ℕ → List (List ℕ) → Bool
unfolding eq_text
is_member s [] = false
is_member s (t ∷ ts) = eq_text s t || is_member s ts

pub eq_text_iff : (s t : List ℕ) → eq_text s t ≡ true → s ≡ t
unfolding eq_text
eq_text_iff [] [] h = refl
eq_text_iff [] (d ∷ t) h = cc
eq_text_iff (c ∷ s) [] h = cc
eq_text_iff (c ∷ s) (d ∷ t) h =
    let p : c ≡ d = ground arith in let q : s ≡ t = eq_text_iff s t (ground arith) in cc

pub eq_text_refl : (s : List ℕ) → eq_text s s ≡ true
unfolding eq_text
eq_text_refl [] = refl
eq_text_refl (c ∷ s) = ground (arith, eq_text_refl s)

-- `str.upper` on ASCII.
unfoldable pub to_upper : ℕ → ℕ
to_upper c = if leb b'a' c && leb c b'z' then c - 32 else c

unfoldable pub upper : List ℕ → List ℕ
unfolding to_upper
upper [] = []
upper (c ∷ s) = to_upper c ∷ upper s
