-- ===== src/MempoolData.antt =====
-- chronik-rocksdb/src/mempool_data.rs: the transactions of the mempool, indexed by script, and the
-- changes that they make to the UTXO set.
mod Defs
pub mod Insert
pub mod Delete
pub mod View
pub mod Sets
pub mod SetsKept
pub mod KeyView
pub mod InsertSpec
pub mod InsertLaws
mod KeyUndo
mod DeleteSpec
mod DeleteTxs
pub mod DeleteLaws
pub mod RoundTrip
unfoldable pub use Defs.*
