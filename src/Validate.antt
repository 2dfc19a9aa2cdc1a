-- ===== src/Validate.antt =====
-- The checks of message/validate.go: what they report of a message before it is encoded, and of the
-- bytes of one.
pub mod Report
pub mod Request
pub mod Batch
pub mod Envelope
pub mod Accepts
pub mod Address
pub mod Present
pub mod Encodes
pub mod Sends
pub mod LinkPanics
pub mod Wire
mod Tests
