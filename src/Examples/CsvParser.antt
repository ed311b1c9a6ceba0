-- ===== src/Examples/CsvParser.antt =====
-- services/api/app/parsers/csv_parser.py: a file of three rows, with small limits.
use finance_intelligence.Prelude.{List, [], arith, map, refl, ℕ, ◌∷◌, ◌≡◌}
use finance_intelligence.Orchestration.Store.Rows.{All}
use finance_intelligence.Ingestion.CsvParser.Limit.{limit_lets_first_cells_through}
use finance_intelligence.Prelude.Ascii.{codes}
use finance_intelligence.Ingestion.CsvParser.Lineage.{Traces, extract-Traces}
use finance_intelligence.Ingestion.CsvParser.{
  extract_rows, extract_cells, join_row, extract, nothing, Extraction, CsvLimits, extract_cell,
  cell_chunk,
}

abbrev limits : CsvLimits
limits = record { max_rows = 10; max_cols = 3; max_cell_len = 4; max_chars = 6 }

abbrev headers : List (List ℕ)
headers = codes "a" ∷ codes "b" ∷ []

abbrev body : List (List (List ℕ))
body = (codes "=1" ∷ codes "12345" ∷ []) ∷ [] ∷ (codes "x" ∷ codes "y" ∷ []) ∷ []

extract-Traces_example :
    All (Traces limits headers (headers ∷ body)) (extract limits b',' (headers ∷ body)).cell_chunks
extract-Traces_example = extract-Traces limits b',' headers body

-- The second cell passes the limit, and the first cell of the last row comes through all the same.
extracts :
    map (λ c. c.content) (extract limits b',' (headers ∷ body)).cell_chunks
    ≡ codes "=1" ∷ codes "1234" ∷ codes "x" ∷ []
unfolding extract extract_rows extract_cells extract_cell cell_chunk join_row
extracts = refl

abbrev full : Extraction
full = record nothing { chunk_index = 1; total_extracted_chars = 7 }

limit_lets_first_cells_through_example :
    map (λ c. c.content) (extract_rows limits headers 1 body full).cell_chunks
    ≡ codes "=1" ∷ codes "x" ∷ []
limit_lets_first_cells_through_example =
    limit_lets_first_cells_through limits headers 1 body full refl (omega arith)
      (omega arith, (omega arith, (omega arith, tt)))
