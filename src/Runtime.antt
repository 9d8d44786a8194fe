-- ===== src/Runtime.antt =====
-- pkg/coordinator/runtime.go: the event loop that owns the worker processes, the scans and the
-- updates of Core.
pub mod State
pub mod Requests
pub mod Failure
pub mod Startup
pub mod Clients
pub mod Scans
pub mod Reloads
pub mod Shutdown
pub mod Messages
pub mod Loop
pub mod Bounds
pub mod Sound
pub mod Runs
pub mod Timeouts
