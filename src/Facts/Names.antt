-- ===== src/Facts/Names.antt =====
-- The canonical names of services/api/app/services/normalization_service.py: scales, currencies,
-- units, reporting bases and the key of a period.
use finance_intelligence.Orchestration.Store.Rows.{All}
use mathlib.Core.Path.{subst}
use finance_intelligence.Prelude.Ascii.{
  codes, eq_text, is_member, lower, upper, is_in, is_space, skip_spaces, to_upper, eq_text_iff,
}
use finance_intelligence.Prelude.{
  Bool-cases, List, Option, Result, [], arith, err, if◌then◌else◌, inl, inr, none, ok, refl, some,
  sym, true, ℕ, ◌||◌, ◌∷◌, ◌≡◌, Bool, false, leb, suc, zero, ◌&&◌, ◌++◌,
}
use finance_intelligence.Facts.Decimal.{Decimal, times}
use finance_intelligence.Facts.Normalization.{strip, strip_end}

-- The codes of the errors that the methods raise.
pub data NameError : Type 0 where
  unsupported_scale unsupported_currency unsupported_unit unsupported_reporting_basis : NameError

-- `text.upper().strip() if text else ""`.
unfoldable pub canonical : List ℕ → List ℕ
unfolding upper strip
canonical s = strip (upper s)

abbrev pub valid_currencies : List (List ℕ)
valid_currencies =
    codes "TRY" ∷ codes "USD" ∷ codes "EUR" ∷ codes "GBP" ∷ codes "CHF" ∷ codes "JPY" ∷ []

abbrev pub valid_units : List (List ℕ)
valid_units = codes "CURRENCY" ∷ codes "PERCENT" ∷ codes "RATIO" ∷ codes "COUNT" ∷ []

abbrev pub valid_bases : List (List ℕ)
valid_bases = codes "SOLO" ∷ codes "CONSOLIDATED" ∷ []

-- `dict.get(key)`.
unfoldable pub lookup {ℓ} : {A : Type ℓ} → List ℕ → List (List ℕ × A) → Option A
unfolding eq_text
lookup k [] = none
lookup k (e ∷ es) = let rest = lookup k es in if eq_text k e.0 then some e.1 else rest

abbrev pub scale_factors : List (List ℕ × ℕ)
scale_factors =
    (codes "ONE", 1)
    ∷ (codes "THOUSAND", 1000)
    ∷ (codes "MILLION", 1_000_000)
    ∷ (codes "BILLION", 1_000_000_000)
    ∷ []

abbrev pub currency_aliases : List (List ℕ × List ℕ)
currency_aliases =
    (codes "TL", codes "TRY")
    ∷ (8378 ∷ [], codes "TRY")
    ∷ (codes "TRL", codes "TRY")
    ∷ (codes "$", codes "USD")
    ∷ (codes "US$", codes "USD")
    ∷ (codes "USD$", codes "USD")
    ∷ (8364 ∷ [], codes "EUR")
    ∷ (163 ∷ [], codes "GBP")
    ∷ []

unfoldable pub normalize_scale : Decimal → List ℕ → Result NameError Decimal
unfolding canonical lookup times
normalize_scale v scale = elim (lookup (canonical scale) scale_factors) [
  | none ↦ err unsupported_scale
  | some factor ↦ ok (times v factor)
]

-- `ALIASES.get(text, text)`.
unfoldable pub without_alias : List ℕ → List ℕ
unfolding lookup
without_alias s = elim (lookup s currency_aliases) [ none ↦ s | some t ↦ t ]

-- A name that is one of those that are allowed.
unfoldable pub allowed : List (List ℕ) → NameError → List ℕ → Result NameError (List ℕ)
unfolding is_member
allowed names e s = if is_member s names then ok s else err e

unfoldable pub normalize_currency : List ℕ → Result NameError (List ℕ)
unfolding canonical without_alias allowed
normalize_currency s = allowed valid_currencies unsupported_currency (without_alias (canonical s))

unfoldable pub normalize_unit : List ℕ → Result NameError (List ℕ)
unfolding canonical allowed
normalize_unit s = allowed valid_units unsupported_unit (canonical s)

unfoldable pub validate_reporting_basis : List ℕ → Result NameError (List ℕ)
unfolding canonical allowed
validate_reporting_basis s = allowed valid_bases unsupported_reporting_basis (canonical s)

unfoldable pub detect_reporting_basis : List ℕ → List ℕ
unfolding lower is_in
detect_reporting_basis s =
    let t = lower s in
    if is_in (codes "konsolide olmayan") t
      || (is_in (codes "solo") t || is_in (codes "unconsolidated") t)
    then codes "SOLO"
    else (if is_in (codes "konsolide") t || is_in (codes "consolidated") t
        then codes "CONSOLIDATED"
        else codes "UNKNOWN")

-- `start_date <= end_date`.
unfoldable pub validate_period_dates : ℕ → ℕ → Bool
validate_period_dates start_date end_date = leb start_date end_date

-- The text of a number is that of the language.
unfoldable pub generate_comparison_key : (ℕ → List ℕ) → List ℕ → ℕ → Option ℕ → List ℕ
unfolding eq_text
generate_comparison_key text_of period_type fiscal_year quarter =
    if eq_text period_type (codes "QUARTER") && is_quarter quarter
    then text_of fiscal_year ++ codes "-Q" ++ elim quarter [ none ↦ [] | some n ↦ text_of n ]
    else text_of fiscal_year ++ codes "-FY"
  where
    is_quarter : Option ℕ → Bool
    is_quarter none = false
    is_quarter (some zero) = false
    is_quarter (some (suc n)) = true

All-member {ℓ} :
    (P : List ℕ → Type ℓ) (s : List ℕ) (names : List (List ℕ))
    → All P names
    → is_member s names ≡ true
    → P s
unfolding is_member
All-member P s [] h m = cc
All-member P s (t ∷ ts) h m = elim (Bool-cases (eq_text s t)) [
  | inl e ↦ subst P (sym (eq_text_iff s t e)) h.0
  | inr e ↦ All-member P s ts h.1 (ground arith)
]

allowed-member :
    (names : List (List ℕ)) (e : NameError) (s t : List ℕ)
    → allowed names e s ≡ ok t
    → is_member t names ≡ true
unfolding allowed
allowed-member names e s t h = elim (Bool-cases (is_member s names)) [
  | inl m ↦ let q : s ≡ t = cc (rw m at h) in subst (λ u. is_member u names ≡ true) q m
  | inr m ↦ cc (rw m at h)
]

-- A canonical currency is read as itself: what `normalize_currency` returns for a text, an alias or
-- any spelling in case and outer white space, it returns again for its own result.
normalize_currency-fixed :
    (s t : List ℕ) → normalize_currency s ≡ ok t → normalize_currency t ≡ ok t
unfolding normalize_currency allowed canonical strip strip_end is_space skip_spaces upper to_upper
    without_alias lookup is_member eq_text
normalize_currency-fixed s t h =
    All-member (λ u. normalize_currency u ≡ ok u) t valid_currencies
      (refl, (refl, (refl, (refl, (refl, (refl, tt))))))
      (allowed-member valid_currencies unsupported_currency (without_alias (canonical s)) t h)
