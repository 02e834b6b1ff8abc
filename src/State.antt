-- ===== src/State.antt =====
-- app/frontend/src/state: the pure state core, and the socket lifecycle that feeds it.
mod Tests
pub mod Orders
pub mod Model
pub mod Reducer
pub mod Socket
