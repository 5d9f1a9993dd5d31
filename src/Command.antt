-- ===== src/Command.antt =====
-- cmd/bitbang: the program on the command line, where it has logic of its own.
pub mod Args
pub mod Reordered
pub mod Twice
pub mod Pieces
pub mod Hold
pub mod Held
pub mod Shown
pub mod Poll
pub mod Polled
