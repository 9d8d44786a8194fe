-- ===== src/Signatures.antt =====
-- pkg/signatures/signatures.go: a database of byte patterns and the search of a stream for them.
-- A byte is a number below 256, which no step depends on.
pub mod Bytes
pub mod Load
pub mod Lines
pub mod Match
pub mod Window
pub mod Search
