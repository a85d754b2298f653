-- ===== src/Connect.antt =====
-- connect.rs: the machine that reaches the offered ports.
pub mod Listeners
pub mod Sessions
pub mod Retry
pub mod Forward
pub mod Link
