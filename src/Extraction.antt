-- ===== src/Extraction.antt =====
-- `parseIdentityText` of internal/services/document_extraction.go: the fields of an identity card in the
-- text that the recogniser read from it. A `float64` is its bits; its product and minimum are parameters.
pub mod Regex
pub mod Words
pub mod Fields
pub mod Parse
mod Tests
