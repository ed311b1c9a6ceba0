-- ===== src/Ingestion/CsvParser/Document.antt =====
-- `CsvParser.parse` of services/api/app/parsers/csv_parser.py: from the bytes of a file to its
-- chunks.
use finance_intelligence.Prelude.{
  Bool, List, Option, [], any, false, if◌then◌else◌, is_empty, leb, map, none, some, take, true, ℕ,
  ◌&&◌, ◌==◌, ◌∷◌,
}
use finance_intelligence.Prelude.Ascii.{lower, is_member, codes, starts_with}
use finance_intelligence.Ingestion.CsvParser.{
  extract, CellChunk, encoding_uncertain, Extraction, null_byte_detected, CsvLimits, HeaderChunk,
  Warning,
}

-- What the language's libraries and chardet do.
pub record CsvPlatform : Type 0 where
  pub decode : List ℕ → List ℕ → Option (List ℕ)
  pub detect : List ℕ → List ℕ × ℕ
  pub sniff : List ℕ → Option ℕ
  pub read : ℕ → List ℕ → List (List (List ℕ))

pub data ExtractionStatus : Type 0 where
  rejected_file awaiting_review completed completed_with_warnings : ExtractionStatus

pub record CanonicalExtractionOutput : Type 0 where
  pub status : ExtractionStatus
  pub quality_score : ℕ
  pub text_layer_present : Bool
  pub header_chunk : Option HeaderChunk
  pub cell_chunks : List CellChunk
  pub warnings : List Warning

abbrev pub allowed_encodings : List (List ℕ)
allowed_encodings =
    map codes
      ("utf-8" ∷ "utf-8-sig" ∷ "ascii" ∷ "iso-8859-1" ∷ "windows-1254" ∷ "latin-1" ∷ "utf-16" ∷ [])

-- A file that is not read: it has one warning.
unfoldable pub unread : ExtractionStatus → Warning → CanonicalExtractionOutput
unread status w = record {
  status = status;
  quality_score = 0;
  text_layer_present = false;
  header_chunk = none;
  cell_chunks = [];
  warnings = w ∷ [];
}

module _ (p : CsvPlatform) where
  -- The candidate of chardet, from the first 65536 bytes.
  unfoldable pub decode_detected : List ℕ → Option (List ℕ)
  unfolding lower is_member
  decode_detected bytes =
      let (name, confidence) = p.detect (take 65536 bytes) in
      if is_member (lower name) allowed_encodings && leb 700 confidence
      then p.decode (lower name) bytes
      else none

  unfoldable pub decode_utf8 : List ℕ → Option (List ℕ)
  unfolding decode_detected
  decode_utf8 bytes = elim (p.decode (codes "utf-8") bytes) [
    | none ↦ decode_detected bytes
    | some s ↦ some s
  ]

  unfoldable pub decode_strictly : List ℕ → Option (List ℕ)
  unfolding decode_utf8 starts_with
  decode_strictly bytes =
      if starts_with (239 ∷ 187 ∷ 191 ∷ []) bytes
      then elim (p.decode (codes "utf-8-sig") bytes) [ none ↦ decode_utf8 bytes | some s ↦ some s ]
      else decode_utf8 bytes

  unfoldable pub delimiter_of : List ℕ → ℕ
  delimiter_of content = elim (p.sniff (take 4096 content)) [ none ↦ b',' | some d ↦ d ]

  unfoldable pub output_of : Extraction → CanonicalExtractionOutput
  output_of s = record {
    status = if is_empty s.warnings then completed else completed_with_warnings;
    quality_score = if is_empty s.warnings then 100 else 90;
    text_layer_present = true;
    header_chunk = s.header_chunk;
    cell_chunks = s.cell_chunks;
    warnings = s.warnings;
  }

  unfoldable pub parse : CsvLimits → List ℕ → CanonicalExtractionOutput
  unfolding decode_strictly delimiter_of output_of unread extract
  parse limits bytes =
      if any (λ b. b == 0) bytes
      then unread rejected_file null_byte_detected
      else elim (decode_strictly bytes) [
        | none ↦ unread awaiting_review encoding_uncertain
        | some content ↦
            output_of
              (extract limits (delimiter_of content) (p.read (delimiter_of content) content))
      ]
