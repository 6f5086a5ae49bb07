-- ===== src/Logd.antt =====
-- logd: the log daemon.
pub mod LogSize
pub mod Statistics
pub mod Serialized
pub mod ReaderThread
pub mod Element
pub mod PruneList
pub mod Simple
pub mod Chatty
