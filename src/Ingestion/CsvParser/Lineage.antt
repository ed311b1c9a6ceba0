-- ===== src/Ingestion/CsvParser/Lineage.antt =====
-- That the chunks of services/api/app/parsers/csv_parser.py can be traced to their cells.
use mathlib.Core.Path.{subst}
use finance_intelligence.Orchestration.Store.Rows.{All}
use finance_intelligence.Ingestion.CsvParser.{
  CellChunk, CsvLimits, extract, column_name_of, extract_cells, extract_rows, Extraction,
  extract_cell, leading_formula, cell_chunk, is_over,
}
use finance_intelligence.Prelude.{
  List, Option, [], none, some, suc, zero, ℕ, ◌∷◌, Bool-cases, arith, inl, inr, length, ltb, refl,
  sym, take, ◌++◌, ◌+◌, ◌-◌, ◌≡◌, ◌≢◌, ap,
}

-- The row of a line and the cell of a column, both counted from 1.
abbrev pub at {ℓ} : {A : Type ℓ} → ℕ → List A → Option A
at n [] = none
at zero (x ∷ xs) = none
at (suc zero) (x ∷ xs) = some x
at (suc (suc n)) (x ∷ xs) = at (suc n) xs

-- A chunk and the cell that it names: its text is the cell's, cut at the limit, the flag says
-- whether it was cut, the column is named after the header, and the leading formula character is
-- that of the text.
abbrev pub Traces : CsvLimits → List (List ℕ) → List (List (List ℕ)) → CellChunk → Type 0
Traces limits headers rows c =
    (row : List (List ℕ)) × (cell : List ℕ) × (at c.line_number rows ≡ some row)
    × (at c.column_index row ≡ some cell)
    × (c.content ≡ take limits.max_cell_len cell)
    × (c.truncated ≡ ltb limits.max_cell_len (length cell))
    × (c.column_name ≡ column_name_of headers (c.column_index - 1))
    × (c.leading_formula_character ≡ leading_formula c.content)

All-append :
    (P : CellChunk → Type 0) (xs : List CellChunk) (x : CellChunk)
    → All P xs
    → P x
    → All P (xs ++ x ∷ [])
All-append P [] x h k = (k, tt)
All-append P (y ∷ xs) x h k = (h.0, All-append P xs x h.1 k)

-- A part of a list at a distance from its start.
abbrev IsAt {ℓ} : {A : Type ℓ} → ℕ → List A → List A → Type ℓ
IsAt {A = A} n part xs = (k : ℕ) (x : A) → at k part ≡ some x → at (n + k) xs ≡ some x

not_at_zero {ℓ} : {A : Type ℓ} (xs : List A) (x : A) → at 0 xs ≢ some x
not_at_zero [] x e = cc
not_at_zero (y ∷ xs) x e = cc

IsAt-whole {ℓ} : {A : Type ℓ} (xs : List A) → IsAt 0 xs xs
IsAt-whole xs k x e = let p : k ≡ 0 + k = omega arith in subst (λ m. at m xs ≡ some x) p e

IsAt-tail {ℓ} :
    {A : Type ℓ} (n : ℕ) (x : A) (part xs : List A) → IsAt n (x ∷ part) xs → IsAt (n + 1) part xs
IsAt-tail n x part xs h zero y e = absurd (not_at_zero part y e)
IsAt-tail n x part xs h (suc k) y e =
    let p : n + 1 + suc k ≡ n + suc (suc k) = omega arith in
    subst (λ m. at m xs ≡ some y) (sym p) (h (suc (suc k)) y e)

IsAt-head {ℓ} :
    {A : Type ℓ} (n : ℕ) (x : A) (part xs : List A) → IsAt n (x ∷ part) xs → at (n + 1) xs ≡ some x
IsAt-head n x part xs h = h 1 x refl

module _ (limits : CsvLimits) (headers : List (List ℕ)) (all_rows : List (List (List ℕ))) where
  extract_cells-Traces :
      (line col : ℕ) (row cells : List (List ℕ)) (s : Extraction)
      → at line all_rows ≡ some row
      → IsAt col cells row
      → All (Traces limits headers all_rows) s.cell_chunks
      → All
          (Traces limits headers all_rows)
          (extract_cells limits headers line col cells s).cell_chunks
  unfolding extract_cells extract_cell cell_chunk
  extract_cells-Traces line col row [] s here part h = h
  extract_cells-Traces line col row (cell ∷ cells) s here part h =
      let s' = extract_cell limits headers line col cell s in
      let h' : All (Traces limits headers all_rows) s'.cell_chunks =
        All-append (Traces limits headers all_rows) s.cell_chunks
          (cell_chunk limits headers line col (s.chunk_index + 1) cell) h
          (
            row,
            cell,
            here,
            IsAt-head col cell cells row part,
            refl,
            refl,
            ap (column_name_of headers) (omega arith),
            refl,
          ) in
      elim (Bool-cases (is_over limits s')) [
        | inl t ↦ rw t h'
        | inr f ↦ rw f (
            extract_cells-Traces line (col + 1) row cells s' here
              (IsAt-tail col cell cells row part) h')
      ]

  extract_rows-Traces :
      (line : ℕ) (rows : List (List (List ℕ))) (s : Extraction)
      → IsAt line rows all_rows
      → All (Traces limits headers all_rows) s.cell_chunks
      → All (Traces limits headers all_rows) (extract_rows limits headers line rows s).cell_chunks
  unfolding extract_rows
  extract_rows-Traces line [] s part h = h
  extract_rows-Traces line (row ∷ rows) s part h =
      let next =
        extract_rows-Traces (line + 1) rows (extract_cells limits headers (line + 1) 0 row s)
          (IsAt-tail line row rows all_rows part)
          (extract_cells-Traces (line + 1) 0 row row s (IsAt-head line row rows all_rows part)
            (IsAt-whole _) h) in
      elim (Bool-cases (ltb limits.max_rows (line + 1))) [
        | inl t ↦ rw t h
        | inr f ↦ elim (Bool-cases (ltb limits.max_cols (length row))) [
          | inl t ↦ rw (f, t) h
          | inr g ↦ rw (f, g) next
        ]
      ]

-- Every cell chunk that is extracted can be traced to the file: its line and its column name a cell
-- of the rows that were read, whose text it has unchanged up to the limit on cells, whose column it
-- names, and whose leading formula character it reports.
pub extract-Traces :
    (limits : CsvLimits) (delimiter : ℕ) (headers : List (List ℕ)) (rows : List (List (List ℕ)))
    → All
        (Traces limits headers (headers ∷ rows))
        (extract limits delimiter (headers ∷ rows)).cell_chunks
unfolding extract
extract-Traces limits delimiter headers rows = elim (Bool-cases (ltb limits.max_rows 1)) [
  | inl t ↦ rw t tt
  | inr f ↦ elim (Bool-cases (ltb limits.max_cols (length headers))) [
    | inl t ↦ rw (f, t) tt
    | inr g ↦
        rw (f, g)
          (extract_rows-Traces limits headers (headers ∷ rows) 1 rows _
            (IsAt-tail 0 headers rows (headers ∷ rows) (IsAt-whole (headers ∷ rows))) tt)
  ]
]
