-- ===== src/Protocol/Message.antt =====
-- crates/pgvisor-core/src/protocol/message.rs. Texts are their UTF-8 bytes, and 32-bit words their bit
-- patterns. pgwire's messages are data, and its encoder and decoder are parameters (`Pgwire`).
pub mod Wire
pub mod Rows
pub mod Initial
pub mod Frontend
pub mod Backend
pub mod RoundTrip
pub mod Malformed
mod Examples
