-- ===== src/Connection.antt =====
-- Package connection: the framed socket client (client.go), its pool (pool.go) and its retries
-- (retry.go).
mod Tests
pub mod Socket
pub mod Receive
pub mod Send
pub mod Pool
pub mod EndToEnd
pub mod Retry
