-- ===== src/Audit.antt =====
-- services/api/app/services/audit_service.py: what is written to the audit log, and how payloads are
-- stripped of sensitive keys. A payload is a value of the program's JSON kind with texts as lists of
-- code points; sets and tuples are lists, and a number is a natural number. The program's `sha256`
-- and its texts of identifiers are parameters. `str.lower` is that of ASCII.
pub mod Sanitization
use finance_intelligence.Prelude.{
  Bool, List, Option, [], if◌then◌else◌, map, none, some, suc, zero, ℕ, ◌++◌, ◌∷◌,
}
use finance_intelligence.Prelude.Ascii.{eq_text, codes, is_member, lower}

mutual
  pub data Value : Type 0 where
    null : Value
    flag : Bool → Value
    number : ℕ → Value
    text : List ℕ → Value
    uuid : ℕ → Value
    dict : Fields → Value
    items : Items → Value

  pub data Fields : Type 0 where
    end : Fields
    field : List ℕ → Value → Fields → Fields

  pub data Items : Type 0 where
    nil : Items
    item : Value → Items → Items

-- `SENSITIVE_KEYS`.
abbrev pub sensitive_keys : List (List ℕ)
sensitive_keys = map codes (
    "filename" ∷ "display_name" ∷ "raw_filename" ∷ "raw_value" ∷ "content" ∷ "cell_value"
    ∷ "opaque_object_key" ∷ "temporary_object_key" ∷ "token" ∷ "secret" ∷ "password"
    ∷ "authorization" ∷ "value" ∷ "normalized_value" ∷ "result_value" ∷ "snapshot_value"
    ∷ "normalized_value_snapshot" ∷ [])

unfoldable pub is_sensitive : List ℕ → Bool
unfolding lower is_member
is_sensitive key = is_member (lower key) sensitive_keys

-- `str(id)`.
module _ (text_of_uuid : ℕ → List ℕ) where
  unfoldable mutual
    pub sanitize_payload_recursive : Value → Value
    sanitize_payload_recursive (dict fs) = dict (sanitize_fields fs)
    sanitize_payload_recursive (items vs) = items (sanitize_items vs)
    sanitize_payload_recursive (uuid n) = text (text_of_uuid n)
    sanitize_payload_recursive null = null
    sanitize_payload_recursive (flag b) = flag b
    sanitize_payload_recursive (number n) = number n
    sanitize_payload_recursive (text s) = text s

    pub sanitize_fields : Fields → Fields
    sanitize_fields end = end
    sanitize_fields (field k v fs) =
        let rest = sanitize_fields fs in
        let clean = sanitize_payload_recursive v in
        if is_sensitive k then rest else field k clean rest

    pub sanitize_items : Items → Items
    sanitize_items nil = nil
    sanitize_items (item v vs) = item (sanitize_payload_recursive v) (sanitize_items vs)

-- `d[key] = v`: in place where the key is there, at the end where it is not.
unfoldable pub set_key : List ℕ → Value → Fields → Fields
set_key k v end = field k v end
set_key k v (field l w fs) =
    let rest = set_key k v fs in if eq_text k l then field l v fs else field l w rest

-- `d.update(other)`.
unfoldable pub update : Fields → Fields → Fields
unfolding set_key
update fs end = fs
update fs (field k v gs) = update (set_key k v fs) gs

-- `d.get(key)`.
unfoldable pub get_key : List ℕ → Fields → Option Value
get_key k end = none
get_key k (field l w fs) = let rest = get_key k fs in if eq_text k l then some w else rest

-- `class AuditEvent`.
pub record AuditEvent : Type 0 where
  pub organization_id : ℕ
  pub user_hash : List ℕ
  pub org_hash : List ℕ
  pub event_type : List ℕ
  pub payload_summary : Fields
  pub previous_hash : List ℕ
  pub current_hash : List ℕ

abbrev repeat : ℕ → ℕ → List ℕ
repeat zero c = []
repeat (suc n) c = c ∷ repeat n c

module _ (text_of_uuid : ℕ → List ℕ) where
  text_of_actor : Option ℕ → List ℕ
  text_of_actor none = codes "system"
  text_of_actor (some n) = text_of_uuid n

  -- The identity of the target, and then the payload, if it is not empty, over it.
  unfoldable pub clean_payload : List ℕ → ℕ → Option Fields → Fields
  unfolding update
  clean_payload target_type target_id payload = elim payload [
    | none ↦ target
    | some fs ↦ update target (sanitize_fields text_of_uuid fs)
  ]
    where
      target : Fields
      target =
          field (codes "target_type") (text target_type)
            (field (codes "target_id") (text (text_of_uuid target_id)) end)

module _ (text_of_uuid : ℕ → List ℕ) (sha256 : List ℕ → List ℕ) where
  unfoldable pub record_event :
      ℕ
      → List ℕ
      → List ℕ
      → ℕ
      → Option ℕ
      → Option Fields
      → List AuditEvent
      → List AuditEvent × AuditEvent
  unfolding text_of_actor clean_payload
  record_event organization event_type target_type target_id actor payload log =
      let user = sha256 (text_of_actor text_of_uuid actor) in
      let org = sha256 (text_of_uuid organization) in
      let event : AuditEvent = record {
        organization_id = organization;
        user_hash = user;
        org_hash = org;
        event_type = event_type;
        payload_summary = clean_payload text_of_uuid target_type target_id payload;
        previous_hash = repeat 64 b'0';
        current_hash = sha256 (event_type ++ b':' ∷ user ++ b':' ∷ org);
      } in
      (log ++ event ∷ [], event)
