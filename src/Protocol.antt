-- ===== src/Protocol.antt =====
-- app/frontend/src/protocol: the wire contract between the terminal and the server.
mod Tests
pub mod Frames
pub mod Value
pub mod Narrow
pub mod Encode
pub mod Fix
