-- ===== src/Ingestion/CsvParser/Limit.antt =====
-- What the limit on extracted characters of services/api/app/parsers/csv_parser.py stops.
use finance_intelligence.Prelude.{
  List, [], ap, arith, false, length, ltb, map, refl, sym, take, true, ℕ, ◌++◌, ◌+◌, ◌∙◌, ◌∷◌, ◌≡◌,
  ◌≤◌,
}
use mathlib.Core.List.{append-nil, append_assoc}
use finance_intelligence.Orchestration.Store.Rows.{All}
use finance_intelligence.Ingestion.CsvParser.{
  cell_chunk, extract_cell, CellChunk, Extraction, CsvLimits, extract_rows, extract_cells, is_over,
}

-- The cell that still gets through of each row once the limit is passed.
abbrev first_cells : CsvLimits → List (List (List ℕ)) → List (List ℕ)
first_cells limits [] = []
first_cells limits ([] ∷ rows) = first_cells limits rows
first_cells limits ((cell ∷ cells) ∷ rows) = take limits.max_cell_len cell ∷ first_cells limits rows

abbrev contents : List CellChunk → List (List ℕ)
contents cs = map (λ c. c.content) cs

map-append : (xs ys : List CellChunk) → contents (xs ++ ys) ≡ contents xs ++ contents ys
map-append [] ys = refl
map-append (x ∷ xs) ys = ap (λ z. x.content ∷ z) (map-append xs ys)

-- A row that comes after the limit was passed yields its first cell.
module _ (limits : CsvLimits) (headers : List (List ℕ)) where
  over_cells :
      (line col : ℕ) (cell : List ℕ) (cells : List (List ℕ)) (s : Extraction)
      → is_over limits s ≡ true
      → (is_over limits (extract_cells limits headers line col (cell ∷ cells) s) ≡ true)
        × (contents (extract_cells limits headers line col (cell ∷ cells) s).cell_chunks
            ≡ contents s.cell_chunks ++ take limits.max_cell_len cell ∷ [])
  unfolding extract_cells extract_cell cell_chunk
  over_cells line col cell cells s over =
      let still : is_over limits (extract_cell limits headers line col cell s) ≡ true =
        ground (arith, over) in
      (
        rw still still,
        rw still (
            map-append s.cell_chunks
              (cell_chunk limits headers line col (s.chunk_index + 1) cell ∷ [])),
      )

-- The limit on characters does not stop the extraction. Once it is passed, every further row within
-- the limits on rows and columns still yields its first cell, cut at the limit on cells: the chunks
-- grow by one for each row that has a cell, up to the end of the file.
pub limit_lets_first_cells_through :
    (limits : CsvLimits) (headers : List (List ℕ)) (line : ℕ) (rows : List (List (List ℕ)))
    (s : Extraction)
    → is_over limits s ≡ true
    → line + length rows ≤ limits.max_rows
    → All (λ row. length row ≤ limits.max_cols) rows
    → contents (extract_rows limits headers line rows s).cell_chunks
      ≡ contents s.cell_chunks ++ first_cells limits rows
unfolding extract_rows
limit_lets_first_cells_through limits headers line [] s over few narrow =
    sym (append-nil (contents s.cell_chunks))
limit_lets_first_cells_through limits headers line ([] ∷ rows) s over few narrow =
    let inside : ltb limits.max_rows (line + 1) ≡ false = ground (arith, few) in
    let fits : ltb limits.max_cols 0 ≡ false = ground arith in
    rw (inside, fits)
      (limit_lets_first_cells_through limits headers (line + 1) rows s over (omega (arith, few))
        narrow.1)
limit_lets_first_cells_through limits headers line ((cell ∷ cells) ∷ rows) s over few narrow =
    let inside : ltb limits.max_rows (line + 1) ≡ false = ground (arith, few) in
    let fits : ltb limits.max_cols (length (cell ∷ cells)) ≡ false = ground (arith, narrow.0) in
    let s' = extract_cells limits headers (line + 1) 0 (cell ∷ cells) s in
    let (still, first) = over_cells limits headers (line + 1) 0 cell cells s over in
    let rest =
      limit_lets_first_cells_through limits headers (line + 1) rows s' still (omega (arith, few))
        narrow.1 in
    rw (inside, fits)
      (rest
        ∙ ap (λ z. z ++ first_cells limits rows) first
        ∙ append_assoc (contents s.cell_chunks) (take limits.max_cell_len cell ∷ [])
            (first_cells limits rows))
