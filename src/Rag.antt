-- ===== src/Rag.antt =====
-- Retrieval (rag): a parsed document is cut into chunks of text, which are then embedded and searched.
pub mod Chunking
