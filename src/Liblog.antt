-- ===== src/Liblog.antt =====
-- liblog: the client library, whose types the daemon shares.
pub mod LogId
pub mod LogTime
pub mod EventList
pub mod LogPrint
pub mod LogWrite
