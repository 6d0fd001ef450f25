-- ===== src/SlpIndex.antt =====
-- chronik-rocksdb/src/slp.rs: the SLP transactions of the blocks, the tokens by their numbers and
-- their statistics.
pub mod Entry
pub mod Tables
pub mod Reader
pub mod Numbers
pub mod Store
pub mod Fetch
pub mod Supply
pub mod Insert
pub mod Delete
pub mod Numbering
pub mod Entries
pub mod Storable
pub mod RoundTrip
pub mod Accounting
pub mod Stats
pub mod BlockSupply
pub mod StatsUpdated
