-- ===== src/WorkerTransport.antt =====
-- pkg/workertransport: how a message travels between Core and a worker, and how Core finds it.
pub mod Protobuf
pub mod Conversion
pub mod Connections
pub mod Bootstrap
