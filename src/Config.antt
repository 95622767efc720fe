-- ===== src/Config.antt =====
-- internal/config: the .env file, and the configuration read from the environment.
pub mod Env
pub mod Dotenv
pub mod Parse
pub mod Settings
pub mod Load
pub mod Ensures
pub mod Bounds
pub mod Within
mod Tests
