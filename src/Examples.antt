-- ===== src/Examples.antt =====
-- The theorems at concrete inputs, and test runs.
pub mod Samples
mod Framing
mod Config
mod State
mod Admin
mod Service
mod Edits
mod Serve
mod Connect
mod Start
mod Link
mod Bindings
mod Identity
mod Command
mod Server
mod Removal
mod Tunnel
