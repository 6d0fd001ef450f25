-- ===== src/Utxos.antt =====
-- chronik-rocksdb/src/utxos.rs: the unspent outputs of each script in the database.
mod Defs
mod Insert
mod Delete
pub mod Field
pub mod Entries
pub mod Grouped
pub mod InsertLaws
pub mod DeleteLaws
pub mod Resolved
pub mod RoundTrip
unfoldable pub use Defs.*
unfoldable pub use Insert.*
unfoldable pub use Delete.*
