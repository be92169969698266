-- ===== src/Rules.antt =====
-- The rules that rewrite request bodies (src/rules).
pub mod Json
pub mod Pointer
pub mod Fields
pub mod Tools
pub mod Pipeline
pub mod Registry
pub mod Factories
pub mod Allocations
