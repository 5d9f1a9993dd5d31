-- ===== src/Pairing.antt =====
-- internal/pairing: the code that two people compare before a credential is handed over.
pub mod Commit
pub mod Prompt
pub mod Messages
pub mod Sas
pub mod Connector
