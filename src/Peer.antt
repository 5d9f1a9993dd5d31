-- ===== src/Peer.antt =====
-- internal/peer: the listener's end of a WebRTC connection.
pub mod Closing
pub mod Answer
pub mod Proof
pub mod Refused
pub mod Pair
pub mod Credentials
pub mod Verdict
pub mod Honest
