-- ===== src/Ingestion/CsvParser.antt =====
-- services/api/app/parsers/csv_parser.py: the cells of a CSV file as chunks that say where they come
-- from. Texts are lists of code points. The decoders, chardet, the sniffer and the reader of the
-- module `csv` are parameters; the confidence of chardet is counted in thousandths and the quality
-- score in hundredths. The error that the reader raises on a field beyond its own limit is left out.
-- The limits are those of services/api/app/core/config.py, passed as a record.
pub mod Lineage
pub mod Limit
pub mod Document
use finance_intelligence.Prelude.{
  Bool, List, Option, [], drop, if◌then◌else◌, length, ltb, none, some, take, ℕ, ◌++◌, ◌+◌, ◌==◌,
  ◌||◌, ◌∷◌,
}

pub record CsvLimits : Type 0 where
  pub max_rows : ℕ
  pub max_cols : ℕ
  pub max_cell_len : ℕ
  pub max_chars : ℕ

abbrev pub settings : CsvLimits
settings = record { max_rows = 100000; max_cols = 500; max_cell_len = 32767; max_chars = 500000 }

-- The name of a column: its header, or its number where it has none.
pub data ColumnName : Type 0 where
  header_name : List ℕ → ColumnName
  numbered : ℕ → ColumnName

pub record HeaderChunk : Type 0 where
  pub chunk_index : ℕ
  pub content : List ℕ
  pub line_number : ℕ

-- `row_index` is one less than the line, and the flag of the risk says whether there is a leading
-- formula character.
pub record CellChunk : Type 0 where
  pub chunk_index : ℕ
  pub content : List ℕ
  pub line_number : ℕ
  pub column_index : ℕ
  pub column_name : ColumnName
  pub truncated : Bool
  pub leading_formula_character : Option ℕ

pub data Warning : Type 0 where
  null_byte_detected encoding_uncertain extracted_chars_exceeded : Warning
  row_count_exceeded : ℕ → Warning
  column_count_exceeded : ℕ → ℕ → Warning
  cell_truncated : ℕ → ℕ → Warning
  formula_injection_risk : ℕ → ℕ → ℕ → Warning

-- The variables of the loop; the chunk of the header comes before those of the cells.
pub record Extraction : Type 0 where
  pub chunk_index : ℕ
  pub total_extracted_chars : ℕ
  pub header_chunk : Option HeaderChunk
  pub cell_chunks : List CellChunk
  pub warnings : List Warning

-- `FORMULA_PREFIXES`: = + - @ tab return.
unfoldable pub is_formula_prefix : ℕ → Bool
is_formula_prefix c = c == b'=' || c == b'+' || c == b'-' || c == b'@' || c == 9 || c == 13

unfoldable pub leading_formula : List ℕ → Option ℕ
unfolding is_formula_prefix
leading_formula [] = none
leading_formula (c ∷ s) = if is_formula_prefix c then some c else none

-- `headers[col_idx] if col_idx < len(headers) else ...`, the index from 0.
unfoldable pub column_name_of : List (List ℕ) → ℕ → ColumnName
column_name_of [] col = numbered (col + 1)
column_name_of headers col = named (drop col headers)
  where
    named : List (List ℕ) → ColumnName
    named [] = numbered (col + 1)
    named (h ∷ hs) = header_name h

module _ (limits : CsvLimits) where
  unfoldable pub cell_chunk : List (List ℕ) → ℕ → ℕ → ℕ → List ℕ → CellChunk
  unfolding leading_formula column_name_of
  cell_chunk headers line col index cell =
      let raw_value = take limits.max_cell_len cell in
      record {
        chunk_index = index;
        content = raw_value;
        line_number = line;
        column_index = col + 1;
        column_name = column_name_of headers col;
        truncated = ltb limits.max_cell_len (length cell);
        leading_formula_character = leading_formula raw_value;
      }

  -- The warnings of a cell, in their order.
  unfoldable pub cell_warnings : CellChunk → List Warning
  cell_warnings c =
      (if c.truncated then cell_truncated c.line_number c.column_index ∷ [] else [])
      ++ risk c.leading_formula_character
    where
      risk : Option ℕ → List Warning
      risk none = []
      risk (some l) = formula_injection_risk c.line_number c.column_index l ∷ []

  -- One turn of the loop over the cells of a row, up to the limit on characters.
  unfoldable pub extract_cell : List (List ℕ) → ℕ → ℕ → List ℕ → Extraction → Extraction
  unfolding cell_chunk cell_warnings
  extract_cell headers line col cell s =
      let c = cell_chunk headers line col (s.chunk_index + 1) cell in
      record s {
        chunk_index = s.chunk_index + 1;
        total_extracted_chars = s.total_extracted_chars + length c.content;
        cell_chunks = s.cell_chunks ++ c ∷ [];
        warnings = s.warnings ++ cell_warnings c;
      }

  abbrev pub is_over : Extraction → Bool
  is_over s = ltb limits.max_chars s.total_extracted_chars

  -- The `break` leaves this loop and no other.
  unfoldable pub extract_cells : List (List ℕ) → ℕ → ℕ → List (List ℕ) → Extraction → Extraction
  unfolding extract_cell
  extract_cells headers line col [] s = s
  extract_cells headers line col (cell ∷ cells) s =
      let s' = extract_cell headers line col cell s in
      let rest = extract_cells headers line (col + 1) cells s' in
      if is_over s'
      then record s' { warnings = s'.warnings ++ extracted_chars_exceeded ∷ [] }
      else rest

  -- The rows after the first, from the line number of the one before them.
  unfoldable pub extract_rows : List (List ℕ) → ℕ → List (List (List ℕ)) → Extraction → Extraction
  unfolding extract_cells
  extract_rows headers line [] s = s
  extract_rows headers line (row ∷ rows) s =
      let rest = extract_rows headers (line + 1) rows (extract_cells headers (line + 1) 0 row s) in
      if ltb limits.max_rows (line + 1)
      then record s { warnings = s.warnings ++ row_count_exceeded (line + 1) ∷ [] }
      else if ltb limits.max_cols (length row)
      then record s { warnings = s.warnings ++ column_count_exceeded (line + 1) (length row) ∷ [] }
      else rest

-- `delimiter.join(row)`.
unfoldable pub join_row : ℕ → List (List ℕ) → List ℕ
join_row delimiter [] = []
join_row delimiter (cell ∷ []) = cell
join_row delimiter (cell ∷ next ∷ cells) = cell ++ delimiter ∷ join_row delimiter (next ∷ cells)

abbrev pub nothing : Extraction
nothing = record {
  chunk_index = 0;
  total_extracted_chars = 0;
  header_chunk = none;
  cell_chunks = [];
  warnings = [];
}

-- The first row is the header, within the limits on rows and columns.
unfoldable pub extract : CsvLimits → ℕ → List (List (List ℕ)) → Extraction
unfolding extract_rows join_row
extract limits delimiter [] = nothing
extract limits delimiter (row ∷ rows) =
    if ltb limits.max_rows 1
    then record nothing { warnings = row_count_exceeded 1 ∷ [] }
    else if ltb limits.max_cols (length row)
    then record nothing { warnings = column_count_exceeded 1 (length row) ∷ [] }
    else extract_rows limits row 1 rows (record nothing {
      chunk_index = 1;
      total_extracted_chars = length (join_row delimiter row);
      header_chunk =
          some (record { chunk_index = 1; content = join_row delimiter row; line_number = 1 });
    })
