-- ===== src/Config.antt =====
-- config.rs: the persisted allowlists of both roles.
pub mod Types
pub mod ProtoName
pub mod Validate
pub mod Grants
pub mod Seed
pub mod Persist
pub mod Token
