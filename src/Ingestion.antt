-- ===== src/Ingestion.antt =====
-- The path of an uploaded document: what the api and the workers do to turn a file into candidates
-- for financial facts.
pub mod Lifecycle
pub mod Command
pub mod ValueLocator
pub mod CsvParser
