-- ===== src/Tests.antt =====
-- Runs of the model on concrete data, and each theorem with hypotheses at an input that meets them.
pub mod Sample
mod KeepRules
mod Groups
mod Hardlink
mod Hashing
mod Operation
mod Pipeline
mod Preview
pub mod Recycle
mod Report
mod Roots
mod Table
mod Traversal
