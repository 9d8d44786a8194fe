-- ===== src/Witnesses.antt =====
-- The theorems at concrete inputs: messages, a database, and runs of the actor and of the loop, of
-- the streams between a worker and Core, of the configuration, of a worker's session, of Core's
-- start of a worker, and of the command line.
pub mod Messages
pub mod Scanning
pub mod Actor
pub mod Core
pub mod Streams
pub mod Settings
pub mod Workers
pub mod Releases
pub mod Clients
pub mod Commands
