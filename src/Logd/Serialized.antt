-- ===== src/Logd/Serialized.antt =====
-- The serialized log buffer of logd.
pub mod Entry
pub mod Chunk
pub mod Nodes
pub mod FlushState
pub mod Buffer
pub mod Clear
pub mod Write
pub mod Tests
