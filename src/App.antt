-- ===== src/App.antt =====
-- The control of the application (src/app).
pub mod ControlExecutor
