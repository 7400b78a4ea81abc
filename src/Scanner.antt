-- ===== src/Scanner.antt =====
-- internal/scanner: the scan engine and the policies that act on its records.
pub mod Types
pub mod Platform
pub mod KeepRules
pub mod Io
pub mod Snapshot
pub mod Recycle
pub mod Hardlink
pub mod Hashing
pub mod Filters
pub mod Groups
pub mod Traversal
