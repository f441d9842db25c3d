-- ===== src/Database.antt =====
-- The database of one request: the tables, the session over them, and the checks of a flush.
-- app/models declares the tables and their constraints, app/extensions.py the session.
mod Tables
mod Constraints
mod Exec
pub mod Sound
pub mod Unique
pub mod Numbers
pub use Tables.*
pub use Constraints.*
unfoldable pub use Constraints.{
  violation, integrity_ok, data_ok, key_free, text_key_free, number_free,
}
pub use Exec.*
