-- ===== src/Witnesses.antt =====
-- Runs at concrete inputs of the theorems that have hypotheses.
mod Frames
mod Queues
mod Streams
mod Overflows
mod Sessions
mod Access
mod Grants
mod Codes
mod Clients
mod Peers
mod Pairings
mod Commands
mod Polls
mod Tcps
mod Shares
mod Shells
mod Relays
