-- ===== src/Tests.antt =====
-- The theorems at concrete inputs: requests, frames and sessions as the program meets them.
mod Allocations
mod Budget
mod Digests
mod Executor
mod Frames
mod Messages
mod Paths
mod Routes
mod Sessions
mod Trackers
mod Values
mod Rules
mod Settings
mod Editors
mod Documents
mod Compilers
