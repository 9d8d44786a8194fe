-- ===== src/Coordinator.antt =====
-- pkg/coordinator/coordinator.go: the actor that owns the workers' states and the requests.
pub mod State
pub mod Handlers
pub mod Clients
pub mod Moves
pub mod Steps
pub mod Tables
pub mod Requests
pub mod Invariant
pub mod Safety
pub mod Lifecycle
pub mod Results
pub mod Routes
