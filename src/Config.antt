-- ===== src/Config.antt =====
-- internal/engine/config: the configuration and the job records under the PortCloak home folder.
pub mod Files
pub mod Model
pub mod Validate
pub mod Preferences
pub mod Readiness
pub mod Credentials
pub mod Jobs
pub mod Store
pub mod Crud
pub mod Fixtures
mod Tests
