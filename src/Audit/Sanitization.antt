-- ===== src/Audit/Sanitization.antt =====
-- What is left of a payload in the audit log of services/api/app/services/audit_service.py.
use mathlib.Core.Option
use finance_intelligence.Prelude.{
  Bool-cases, List, Option, [], arith, false, if◌then◌else◌, inl, inr, none, refl, some, ℕ, ◌++◌,
  ◌∷◌, ◌≡◌, true,
}
use finance_intelligence.Audit.{
  Value, Fields, Items, sanitize_items, field, sanitize_fields, uuid, null, is_sensitive, get_key,
  nil, items, set_key, sanitize_payload_recursive, end, update, text, number, item, clean_payload,
  dict, record_event, AuditEvent, flag,
}
use mathlib.Core.Option
use finance_intelligence.Prelude.Ascii.{to_lower, is_member, lower, eq_text, eq_text_iff}

-- No sensitive key at any depth, and no identifier that is not a text.
abbrev mutual
  pub IsClean : Value → Type 0
  IsClean null = Unit
  IsClean (flag b) = Unit
  IsClean (number n) = Unit
  IsClean (text s) = Unit
  IsClean (uuid n) = ⊥
  IsClean (dict fs) = CleanFields fs
  IsClean (items vs) = CleanItems vs

  pub CleanFields : Fields → Type 0
  CleanFields end = Unit
  CleanFields (field k v fs) = (is_sensitive k ≡ false) × IsClean v × CleanFields fs

  pub CleanItems : Items → Type 0
  CleanItems nil = Unit
  CleanItems (item v vs) = IsClean v × CleanItems vs

module _ (text_of_uuid : ℕ → List ℕ) where
  mutual
    unfolding sanitize_payload_recursive sanitize_fields sanitize_items

    sanitize_payload_recursive-IsClean :
        (v : Value) → IsClean (sanitize_payload_recursive text_of_uuid v)
    sanitize_payload_recursive-IsClean null = tt
    sanitize_payload_recursive-IsClean (flag b) = tt
    sanitize_payload_recursive-IsClean (number n) = tt
    sanitize_payload_recursive-IsClean (text s) = tt
    sanitize_payload_recursive-IsClean (uuid n) = tt
    sanitize_payload_recursive-IsClean (dict fs) = sanitize_fields-IsClean fs
    sanitize_payload_recursive-IsClean (items vs) = sanitize_items-IsClean vs

    sanitize_fields-IsClean : (fs : Fields) → CleanFields (sanitize_fields text_of_uuid fs)
    sanitize_fields-IsClean end = tt
    sanitize_fields-IsClean (field k v fs) = elim (Bool-cases (is_sensitive k)) [
      | inl t ↦ rw t (sanitize_fields-IsClean fs)
      | inr f ↦ rw f (f, sanitize_payload_recursive-IsClean v, sanitize_fields-IsClean fs)
    ]

    sanitize_items-IsClean : (vs : Items) → CleanItems (sanitize_items text_of_uuid vs)
    sanitize_items-IsClean nil = tt
    sanitize_items-IsClean (item v vs) =
        (sanitize_payload_recursive-IsClean v, sanitize_items-IsClean vs)

-- An assignment to a clean key of a clean value keeps a payload clean, and so does an update.
set_key-IsClean :
    (k : List ℕ) (v : Value) (fs : Fields)
    → is_sensitive k ≡ false
    → IsClean v
    → CleanFields fs
    → CleanFields (set_key k v fs)
unfolding set_key
set_key-IsClean k v end p c h = (p, c, tt)
set_key-IsClean k v (field l w fs) p c h = elim (Bool-cases (eq_text k l)) [
  | inl t ↦ rw t (h.0, c, h.2)
  | inr f ↦ rw f (h.0, h.1, set_key-IsClean k v fs p c h.2)
]

update-IsClean : (fs gs : Fields) → CleanFields fs → CleanFields gs → CleanFields (update fs gs)
unfolding update
update-IsClean fs end h k = h
update-IsClean fs (field l w gs) h k =
    update-IsClean (set_key l w fs) gs (set_key-IsClean l w fs k.0 k.1 h) k.2

-- No call of `record_event` writes a sensitive key, at any depth and in any spelling of its case, or
-- an identifier that is not a text, whatever the payload; the row is the last of the log.
pub record_event-IsClean :
    (text_of_uuid : ℕ → List ℕ) (sha256 : List ℕ → List ℕ) (organization : ℕ)
    (event_type target_type : List ℕ) (target_id : ℕ) (actor : Option ℕ) (payload : Option Fields)
    (log : List AuditEvent)
    → let after =
        record_event text_of_uuid sha256 organization event_type target_type target_id actor payload
          log in
      (after.0 ≡ log ++ after.1 ∷ []) × CleanFields after.1.payload_summary
unfolding record_event clean_payload is_sensitive lower to_lower is_member eq_text
record_event-IsClean text_of_uuid sha256 organization event_type target_type target_id actor payload
      log =
    (refl, go payload)
  where
    go : (p : Option Fields) → CleanFields (clean_payload text_of_uuid target_type target_id p)
    go none = (refl, tt, (refl, tt, tt))
    go (some fs) =
        update-IsClean _ (sanitize_fields text_of_uuid fs) (refl, tt, (refl, tt, tt))
          (sanitize_fields-IsClean text_of_uuid fs)

-- Sanitising keeps all else: what is under a key afterwards is the sanitised value that was there,
-- and nothing exactly where the key is sensitive or was missing.
get_key-sanitize_fields :
    (text_of_uuid : ℕ → List ℕ) (k : List ℕ) (fs : Fields)
    → get_key k (sanitize_fields text_of_uuid fs) ≡ (
        if is_sensitive k
        then none
        else Option.map (sanitize_payload_recursive text_of_uuid) (get_key k fs))
unfolding sanitize_fields get_key
get_key-sanitize_fields text_of_uuid k end = ground arith
get_key-sanitize_fields text_of_uuid k (field l w fs) =
    let rest = get_key-sanitize_fields text_of_uuid k fs in
    elim (Bool-cases (eq_text k l)) [
      | inl t ↦
          let q : k ≡ l = eq_text_iff k l t in
          elim (Bool-cases (is_sensitive l)) [
            | inl s ↦ let s' : is_sensitive k ≡ true = rw q s in rw (s, s') (rw s' at rest)
            | inr s ↦ let s' : is_sensitive k ≡ false = rw q s in rw (s, s', t) refl
          ]
      | inr f ↦ elim (Bool-cases (is_sensitive l)) [
        | inl s ↦ rw (s, f) rest
        | inr s ↦ rw (s, f) rest
      ]
    ]
