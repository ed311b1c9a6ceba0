-- ===== src/Examples/Audit.antt =====
-- services/api/app/services/audit_service.py: a payload with a secret in a nested object.
use finance_intelligence.Prelude.{List, [], none, some, ℕ, ◌∷◌, ◌≡◌}
use finance_intelligence.Prelude.Ascii.{codes}
use finance_intelligence.Audit.{record_event, text, uuid, end, field, dict, Fields}
use finance_intelligence.Audit.Sanitization.{record_event-IsClean, CleanFields}

abbrev uuid_text : ℕ → List ℕ
uuid_text n = n ∷ []

abbrev payload : Fields
payload =
    field (codes "job") (uuid 7)
      (field (codes "detail") (dict (field (codes "Password") (text (codes "x")) end)) end)

record_event-IsClean_example :
    let after =
      record_event uuid_text (λ s. s) 1 (codes "LOGIN") (codes "USER") 3 none (some payload) [] in
    (after.0 ≡ after.1 ∷ []) × CleanFields after.1.payload_summary
record_event-IsClean_example =
    record_event-IsClean uuid_text (λ s. s) 1 (codes "LOGIN") (codes "USER") 3 none (some payload)
      []
