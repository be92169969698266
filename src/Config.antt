-- ===== src/Config.antt =====
-- The configuration that the program edits (src/config).
pub mod Profile
pub mod Fields
pub mod Settings
pub mod Editor
pub mod Document
pub mod RuntimeCompiler
pub mod EditingService
