-- ===== src/History.antt =====
-- internal/history: the import of a channel's message history.
pub mod Batches
pub mod Queue
pub mod Registry
pub mod Chunk
