-- ===== src/Store.antt =====
-- podcast_agent/db: the document store that every other component writes through.
mod Defs
pub mod Mvcc
pub mod Revisions
pub mod Update
unfoldable pub use Defs.*
