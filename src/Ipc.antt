-- ===== src/Ipc.antt =====
-- The GUI IPC of the program (src/gui_ipc): frames, envelopes and sessions.
pub mod Enums
pub mod Messages
pub mod Frame
pub mod Session
