-- ===== src/Knowledge.antt =====
-- The documents that answers are looked up in: how gateway/rag.go cuts their text.
pub mod Chunking
