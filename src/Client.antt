-- ===== src/Client.antt =====
-- internal/client/session.go: the connecting side of a session.
pub mod Stream
pub mod Sides
pub mod Accounts
pub mod Session
pub mod Dispatch
pub mod Table
pub mod Moves
pub mod Runs
pub mod Handshake
pub mod Verified
pub mod Versions
pub mod Pins
