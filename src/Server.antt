-- ===== src/Server.antt =====
-- connection/server.cpp: requests, and the life of a connection.
pub mod Parsing
pub mod Dispatch
pub mod Identity
pub mod Connections
pub mod Heartbeat
pub mod Soundness
pub mod Serving
pub mod Safety
pub mod Endings
pub mod Steps
pub mod Termination
pub mod Expiry
pub mod OwnTable
