-- ===== src/Memory.antt =====
-- Buffers: include/essence/memory.
pub mod AtomicReadableBuffer
pub mod SwappingBuffer
pub mod NonuniformGrid
