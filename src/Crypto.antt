-- ===== src/Crypto.antt =====
-- Chunk processors: src/crypto.
pub mod Digest
pub mod Pipeline
pub mod Spans
pub mod Chain
pub mod BufferSize
pub mod Ostream
