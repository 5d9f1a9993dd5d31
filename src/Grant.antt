-- ===== src/Grant.antt =====
-- internal/grant/grant.go: what a listener offers and what a link may reach. A string is the list of
-- its code points.
pub mod Fields
pub mod Spec
pub mod Narrow
pub mod Quoting
pub mod Narrowing
