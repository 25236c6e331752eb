-- ===== src/Documents.antt =====
-- What is made of the documents of a project.
pub mod Chunking
pub mod Extraction
