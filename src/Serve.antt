-- ===== src/Serve.antt =====
-- serve.rs: the machine that offers ports.
pub mod Streams
pub mod Evict
pub mod Sessions
pub mod Pump
pub mod Server
