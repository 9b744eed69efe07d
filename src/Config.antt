-- ===== src/Config.antt =====
-- config.rs, config/provider.rs and model_meta.rs: the connection profiles, the registry of models
-- and the loading of the configuration.
pub mod Types
pub mod Profile
pub mod Registry
pub mod Families
pub mod Settings
pub mod Profiles
pub mod Thinking
pub mod Load
pub mod Bounds
pub mod Loaded
mod Tests
