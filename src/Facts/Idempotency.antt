-- ===== src/Facts/Idempotency.antt =====
-- One candidate for one cell, for `create_candidate` of
-- services/api/app/services/fact_candidate_service.py.
use finance_intelligence.Facts.Decimal.{Decimal}
use finance_intelligence.Facts.Effects.{one_or_none-none}
use mathlib.Core.Path.{subst}
use finance_intelligence.Facts.Evidence.{or_raise}
use finance_intelligence.Facts.Writes.{one_or_none}
use finance_intelligence.Facts.Normalization.{NumberParseResult, parse_financial_decimal}
use finance_intelligence.Prelude.Ascii.{eq_text_refl}
use finance_intelligence.Facts.{
  FinancialFactCandidate, FactTables, MetricDefinition, ReviewError, ℤ,
}
use finance_intelligence.Prelude.{
  AtOk, AtOk-bind, Bool, List, Option, [], arith, refl, select, true, ℕ, ◌++◌, ◌∷◌, ◌≡◌, none, ok,
  some, ◌>>=◌, ◌∙◌, at_ok, select-append, AtOk-value, AtOk-mono,
}
use finance_intelligence.Facts.Candidates.{
  create_candidate, new_candidate, existing_candidate, idempotency_hash, insert_candidate,
  match_metric_alias, new_evidence, match_metric, scaled, stored,
}
use finance_intelligence.Facts.Cells.{CandidatePlatform, has_hash, Cell, location}

has_own_hash :
    (p : CandidatePlatform) (cell : Cell) (r : NumberParseResult) (m : Option MetricDefinition)
    (parsed normalized : Option ℤ)
    → has_hash cell.organization_id
        (idempotency_hash p cell)
        (new_candidate p cell r m parsed normalized)
      ≡ true
unfolding has_hash new_candidate
has_own_hash p cell r m parsed normalized = ground (arith, eq_text_refl (idempotency_hash p cell))

-- What the insertion does, where no candidate has the hash, and where one has.
module _ (p : CandidatePlatform) (cell : Cell) (c : FinancialFactCandidate) (db : FactTables) where
  abbrev same_hash : FinancialFactCandidate → Bool
  same_hash = has_hash cell.organization_id (idempotency_hash p cell)

  insert_cases :
      (P : FactTables × FinancialFactCandidate → Type 0)
      → (select same_hash db.candidates ≡ []
          → (db' : FactTables) → db'.candidates ≡ db.candidates ++ c ∷ []
          → P (db', c))
      → ((d x : FinancialFactCandidate) (ds : List FinancialFactCandidate)
          → select same_hash db.candidates ≡ d ∷ ds
          → (one_or_none (d ∷ ds) >>= λ o. or_raise ReviewError.no_result_found o) ≡ ok x
          → P (db, x))
      → AtOk P (insert_candidate p cell c db)
  unfolding insert_candidate
  insert_cases P new old = go (select same_hash db.candidates) refl
    where
      go :
          (ds : List FinancialFactCandidate)
          → select same_hash db.candidates ≡ ds
          → AtOk P (insert_candidate p cell c db)
      go [] e =
          rw (insert_candidate, e)
            (AtOk-bind P (new_evidence p cell (location cell)) _
              (λ evidence _. at_ok (new e _ refl)))
      go (d ∷ ds) e =
          rw (insert_candidate, e)
            (AtOk-bind P (one_or_none (d ∷ ds)) _ (λ o o_is.
              AtOk-bind P (or_raise ReviewError.no_result_found o) _
                (λ x x_is. at_ok (old d x ds e (rw (o_is, x_is) refl)))))

module _ (p : CandidatePlatform) (cell : Cell) where
  -- A call that finds no candidate comes to the insertion of one with the hash of its cell.
  create_cases :
      (P : FactTables × FinancialFactCandidate → Type 0) (seen db : FactTables)
      → ((c : FinancialFactCandidate) → existing_candidate p cell seen ≡ ok (some c) → P (db, c))
      → ((c : FinancialFactCandidate)
          → existing_candidate p cell seen ≡ ok none
          → has_hash cell.organization_id (idempotency_hash p cell) c ≡ true
          → AtOk P (insert_candidate p cell c db))
      → AtOk P (create_candidate p cell seen db)
  unfolding create_candidate
  create_cases P seen db old new =
      AtOk-bind P (existing_candidate p cell seen) _ (λ existing e. go existing e)
    where
      r : NumberParseResult
      r = parse_financial_decimal cell.raw_value none

      go :
          (existing : Option FinancialFactCandidate)
          → existing_candidate p cell seen ≡ ok existing
          → AtOk P (elim existing [
            | some c ↦ ok (db, c)
            | none ↦ match_metric p cell seen >>= λ metric. scaled p cell r.value >>= λ normalized.
                stored p cell r.value >>= λ parsed. stored p cell normalized >>= λ value.
                insert_candidate p cell (new_candidate p cell r metric parsed value) db
          ])
      go (some c) e = at_ok (old c e)
      go none e = AtOk-bind P (match_metric p cell seen) _ (λ metric _.
          AtOk-bind P (scaled p cell r.value) _ (λ normalized _.
            AtOk-bind P (stored p cell r.value) _ (λ parsed _.
              AtOk-bind P (stored p cell normalized) _
                (λ value _. new _ e (has_own_hash p cell r metric parsed value)))))

-- A second session inserts after a first one, with new identifiers.
module _ (p : CandidatePlatform) (cell : Cell) (id evidence_id : ℕ) where
  abbrev same_cell : Cell
  same_cell = record cell { id = id; evidence_id = evidence_id }

  insert_after :
      (d : FinancialFactCandidate) (db : FactTables) (x : FinancialFactCandidate)
      (ds : List FinancialFactCandidate)
      → select (has_hash cell.organization_id (idempotency_hash p cell)) db.candidates ≡ x ∷ ds
      → (y : FinancialFactCandidate)
      → (one_or_none (x ∷ ds) >>= λ o. or_raise ReviewError.no_result_found o) ≡ ok y
      → insert_candidate p same_cell d db ≡ ok (db, y)
  unfolding insert_candidate idempotency_hash location one_or_none
  insert_after d db x [] e y h = let same : x ≡ y = cc in rw (insert_candidate, e) (rw same refl)
  insert_after d db x (z ∷ ds) e y h = absurd (cc h)

  insert_again :
      (c d : FinancialFactCandidate) (db : FactTables)
      → has_hash cell.organization_id (idempotency_hash p cell) c ≡ true
      → AtOk (λ r. insert_candidate p same_cell d r.0 ≡ ok r) (insert_candidate p cell c db)
  unfolding one_or_none
  insert_again c d db own =
      insert_cases p cell c db (λ r. insert_candidate p same_cell d r.0 ≡ ok r)
        (λ free after e.
          insert_after d after c []
            (rw
              (
                e,
                select-append (has_hash cell.organization_id (idempotency_hash p cell))
                    db.candidates (c ∷ []),
                free,
                own,
              )
              refl)
            c refl)
        (λ x y ds e h. insert_after d db x ds e y h)

  -- The second session reads what the first one read, and comes to insert.
  comes_to_insert :
      (seen db : FactTables) (metric : Option MetricDefinition) (normalized : Option Decimal)
      (parsed value : Option ℤ)
      → existing_candidate p cell seen ≡ ok none
      → match_metric p cell seen ≡ ok metric
      → scaled p cell (parse_financial_decimal cell.raw_value none).value ≡ ok normalized
      → stored p cell (parse_financial_decimal cell.raw_value none).value ≡ ok parsed
      → stored p cell normalized ≡ ok value
      → create_candidate p same_cell seen db
        ≡ insert_candidate p same_cell
            (new_candidate p same_cell
              (parse_financial_decimal cell.raw_value none)
              metric
              parsed
              value)
            db
  unfolding create_candidate existing_candidate idempotency_hash location match_metric
      match_metric_alias scaled stored
  comes_to_insert seen db metric normalized parsed value e em es ep ev =
      let e' : existing_candidate p same_cell seen ≡ ok none = e in
      let em' : match_metric p same_cell seen ≡ ok metric = em in
      let es' : scaled p same_cell (parse_financial_decimal cell.raw_value none).value
          ≡ ok normalized =
        es in
      let ep' : stored p same_cell (parse_financial_decimal cell.raw_value none).value ≡ ok parsed =
        ep in
      let ev' : stored p same_cell normalized ≡ ok value = ev in
      rw (create_candidate, e', em', es', ep', ev') refl

  create_after :
      (seen db : FactTables)
      → AtOk (λ r. create_candidate p same_cell seen r.0 ≡ ok r) (create_candidate p cell seen db)
  unfolding create_candidate existing_candidate idempotency_hash location match_metric
      match_metric_alias scaled stored
  create_after seen db =
      AtOk-bind P (existing_candidate p cell seen) _ (λ existing e. go existing e)
    where
      P : FactTables × FinancialFactCandidate → Type 0
      P r = create_candidate p same_cell seen r.0 ≡ ok r

      r : NumberParseResult
      r = parse_financial_decimal cell.raw_value none

      go :
          (existing : Option FinancialFactCandidate)
          → existing_candidate p cell seen ≡ ok existing
          → AtOk P (elim existing [
            | some c ↦ ok (db, c)
            | none ↦ match_metric p cell seen >>= λ metric. scaled p cell r.value >>= λ normalized.
                stored p cell r.value >>= λ parsed. stored p cell normalized >>= λ value.
                insert_candidate p cell (new_candidate p cell r metric parsed value) db
          ])
      go (some c) e = at_ok (rw e refl)
      go none e = AtOk-bind P (match_metric p cell seen) _ (λ metric em.
          AtOk-bind P (scaled p cell r.value) _ (λ normalized es.
            AtOk-bind P (stored p cell r.value) _ (λ parsed ep.
              AtOk-bind P (stored p cell normalized) _ (λ value ev.
                AtOk-mono
                  (λ after k.
                    comes_to_insert seen after.0 metric normalized parsed value e em es ep ev ∙ k)
                  (insert_again (new_candidate p cell r metric parsed value)
                    (new_candidate p same_cell r metric parsed value) db
                    (has_own_hash p cell r metric parsed value))))))

-- Two sessions make one candidate: when a second session, with new identifiers, asks for the same
-- cell on the tables that the first one saw before it inserted, and inserts in the tables that the
-- first one left, it returns the candidate that the first one returned and changes nothing.
pub two_sessions_one_candidate :
    (p : CandidatePlatform) (cell : Cell) (id evidence_id : ℕ) (seen db db' : FactTables)
    (c : FinancialFactCandidate)
    → create_candidate p cell seen db ≡ ok (db', c)
    → create_candidate p (record cell { id = id; evidence_id = evidence_id }) seen db' ≡ ok (db', c)
two_sessions_one_candidate p cell id evidence_id seen db db' c h =
    AtOk-value P (db', c) (subst (AtOk P) h (create_after p cell id evidence_id seen db))
  where
    P : FactTables × FinancialFactCandidate → Type 0
    P r = create_candidate p (record cell { id = id; evidence_id = evidence_id }) seen r.0 ≡ ok r

-- The candidate that a call returns is the one that its query finds afterwards.
created :
    (p : CandidatePlatform) (cell : Cell) (db : FactTables)
    → AtOk (λ r. existing_candidate p cell r.0 ≡ ok (some r.1)) (create_candidate p cell db db)
unfolding existing_candidate one_or_none
created p cell db =
    create_cases p cell P db db (λ c e. e)
      (λ d e own.
        insert_cases p cell d db P (added d own) (λ d' x ds k _. cc (one_or_none-none _ e, k)))
  where
    P : FactTables × FinancialFactCandidate → Type 0
    P r = existing_candidate p cell r.0 ≡ ok (some r.1)

    added :
        (d : FinancialFactCandidate)
        → has_hash cell.organization_id (idempotency_hash p cell) d ≡ true
        → select (has_hash cell.organization_id (idempotency_hash p cell)) db.candidates ≡ []
        → (after : FactTables) → after.candidates ≡ db.candidates ++ d ∷ []
        → P (after, d)
    added d own free after e =
        rw
          (
            e,
            select-append (has_hash cell.organization_id (idempotency_hash p cell)) db.candidates
                (d ∷ []),
            free,
            own,
          )
          refl

-- A call that is made again, when the tables are as a first call left them, returns the candidate
-- that the first call returned and changes nothing, whatever new identifiers it is given.
pub create_candidate_again :
    (p : CandidatePlatform) (cell : Cell) (id evidence_id : ℕ) (db db' : FactTables)
    (c : FinancialFactCandidate)
    → create_candidate p cell db db ≡ ok (db', c)
    → create_candidate p (record cell { id = id; evidence_id = evidence_id }) db' db' ≡ ok (db', c)
unfolding create_candidate existing_candidate idempotency_hash location
create_candidate_again p cell id evidence_id db db' c h =
    let found = AtOk-value P (db', c) (subst (AtOk P) h (created p cell db)) in rw found refl
  where
    P : FactTables × FinancialFactCandidate → Type 0
    P r = existing_candidate p cell r.0 ≡ ok (some r.1)
