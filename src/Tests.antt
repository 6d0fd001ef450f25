-- ===== src/Tests.antt =====
-- The theorems at concrete inputs.
mod Fixture
mod Scripts
mod Mempool
mod Batches
mod Tokens
mod UtxoBlocks
mod ListColumn
mod Chain
mod Stats
mod States
mod Transients
mod ScriptHistories
mod ScriptUtxos
mod Histories
mod SlpBatches
mod SlpIndexes
mod Merges
