-- ===== src/Ingestion/Command/Canonical.antt =====
-- The length-prefixed text that the signature of services/worker/app/command_envelope.py covers.
use finance_intelligence.Prelude.{
  Bool-cases, List, [], ap, arith, false, inl, inr, length, ltb, refl, suc, sym, zero, ℕ, ◌%◌, ◌*◌,
  ◌++◌, ◌+◌, ◌-◌, ◌/◌, ◌<◌, ◌==◌, ◌∙◌, ◌∷◌, ◌≡◌, ◌≤◌,
}
use mathlib.Core.List.{append_assoc, append-nil}
use finance_intelligence.Orchestration.Store.Rows.{All}
use finance_intelligence.Ingestion.Command.{
  decimal, prefixed, digits, get_canonical_payload, joined, CommandPlatform,
  IngestionCommandEnvelope, signed_parts,
}

-- The number that a list of digits writes.
value_from : ℕ → List ℕ → ℕ
value_from acc [] = acc
value_from acc (d ∷ ds) = value_from (acc * 10 + (d - b'0')) ds

value_from-append :
    (acc : ℕ) (xs ys : List ℕ) → value_from acc (xs ++ ys) ≡ value_from (value_from acc xs) ys
unfolding value_from
value_from-append acc [] ys = refl
value_from-append acc (x ∷ xs) ys = value_from-append (acc * 10 + (x - b'0')) xs ys

value-digits : (fuel n : ℕ) → n < fuel → value_from 0 (digits fuel n) ≡ n
unfolding value_from digits
value-digits zero n h = (omega (arith, h))
value-digits (suc fuel) n h = elim (Bool-cases (ltb n 10)) [
  | inl t ↦ rw t (omega arith)
  | inr f ↦
      let big : 10 ≤ n = ground arith in
      let front = value-digits fuel (n / 10) (omega (arith, h, big)) in
      rw (f, value_from-append 0 (digits fuel (n / 10)) ((n % 10 + b'0') ∷ []), front) (omega arith)
]

-- No digit is a colon.
abbrev NoColon : List ℕ → Type 0
NoColon ds = All (λ c. (c == b':') ≡ false) ds

NoColon-append : (xs ys : List ℕ) → NoColon xs → NoColon ys → NoColon (xs ++ ys)
NoColon-append [] ys h k = k
NoColon-append (x ∷ xs) ys h k = (h.0, NoColon-append xs ys h.1 k)

digits-NoColon : (fuel n : ℕ) → NoColon (digits fuel n)
unfolding digits
digits-NoColon zero n = tt
digits-NoColon (suc fuel) n = elim (Bool-cases (ltb n 10)) [
  | inl t ↦ rw t (ground arith, tt)
  | inr f ↦
      rw f
        (NoColon-append (digits fuel (n / 10)) _ (digits-NoColon fuel (n / 10)) (ground arith, tt))
]

-- What stands before the first colon, and what stands after it.
split_at_colon :
    (xs ys s t : List ℕ)
    → NoColon xs
    → NoColon ys
    → xs ++ b':' ∷ s ≡ ys ++ b':' ∷ t
    → (xs ≡ ys) × (s ≡ t)
split_at_colon [] [] s t h k e = (refl, cc)
split_at_colon [] (y ∷ ys) s t h k e = absurd (ground (arith, k.0))
split_at_colon (x ∷ xs) [] s t h k e = absurd (ground (arith, h.0))
split_at_colon (x ∷ xs) (y ∷ ys) s t h k e =
    let (p, q) = split_at_colon xs ys s t h.1 k.1 cc in let r : x ≡ y = cc in (cc, q)

split_at_length :
    (xs ys s t : List ℕ) → length xs ≡ length ys → xs ++ s ≡ ys ++ t → (xs ≡ ys) × (s ≡ t)
split_at_length [] [] s t h e = (refl, e)
split_at_length [] (y ∷ ys) s t h e = absurd (omega (arith, h))
split_at_length (x ∷ xs) [] s t h e = absurd (omega (arith, h))
split_at_length (x ∷ xs) (y ∷ ys) s t h e =
    let (p, q) = split_at_length xs ys s t (omega (arith, h)) cc in let r : x ≡ y = cc in (cc, q)

-- A part can be told from what follows it.
prefixed-split :
    (part other s t : List ℕ) → prefixed part ++ s ≡ prefixed other ++ t → (part ≡ other) × (s ≡ t)
unfolding prefixed decimal
prefixed-split part other s t e =
    let n = length part in
    let m = length other in
    let (ds, rest) =
      split_at_colon (digits (suc n) n) (digits (suc m) m) (part ++ s) (other ++ t)
        (digits-NoColon (suc n) n) (digits-NoColon (suc m) m)
        (sym (append_assoc (digits (suc n) n) (b':' ∷ part) s)
          ∙ e
          ∙ append_assoc (digits (suc m) m) (b':' ∷ other) t) in
    let same : n ≡ m =
      sym (value-digits (suc n) n (omega arith))
      ∙ ap (value_from 0) ds
      ∙ value-digits (suc m) m (omega arith) in
    split_at_length part other s t same rest

-- Joined lists of as many parts are the same text only if they are the same parts.
joined-injective : (xs ys : List (List ℕ)) → length xs ≡ length ys → joined xs ≡ joined ys → xs ≡ ys
unfolding joined
joined-injective [] [] h e = refl
joined-injective [] (y ∷ ys) h e = absurd (omega (arith, h))
joined-injective (x ∷ xs) [] h e = absurd (omega (arith, h))
joined-injective (x ∷ []) (y ∷ []) h e =
    let (p, q) =
      prefixed-split x y [] [] (append-nil (prefixed x) ∙ e ∙ sym (append-nil (prefixed y))) in
    ap (λ z. z ∷ []) p
joined-injective (x ∷ []) (y ∷ z ∷ ys) h e = absurd (omega (arith, h))
joined-injective (x ∷ z ∷ xs) (y ∷ []) h e = absurd (omega (arith, h))
joined-injective (x ∷ z ∷ xs) (y ∷ w ∷ ys) h e =
    let (p, q) = prefixed-split x y (b'|' ∷ joined (z ∷ xs)) (b'|' ∷ joined (w ∷ ys)) e in
    let rest = joined-injective (z ∷ xs) (w ∷ ys) (omega (arith, h)) cc in cc

-- The signed text has no room for a forged delimiter: two envelopes with one canonical payload agree
-- in all eight signed parts, whatever characters the parts have, delimiters and digits among them.
pub canonical_payload-injective :
    (p : CommandPlatform) (e e' : IngestionCommandEnvelope)
    → get_canonical_payload p e ≡ get_canonical_payload p e'
    → signed_parts p e ≡ signed_parts p e'
unfolding get_canonical_payload
canonical_payload-injective p e e' q =
    joined-injective (signed_parts p e) (signed_parts p e') (eight e e') q
  where
    eight :
        (e e' : IngestionCommandEnvelope) → length (signed_parts p e) ≡ length (signed_parts p e')
    eight e e' = refl
