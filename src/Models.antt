-- ===== src/Models.antt =====
-- The tables of app/models: one record for each row type, one data type for each enumeration.
mod Domain
mod Audit
mod Idempotency
mod Profile
mod Branding
pub use Domain.*
pub use Audit.*
pub use Idempotency.*
pub use Profile.*
pub use Branding.*
