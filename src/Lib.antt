-- ===== src/Lib.antt =====
-- Models of Chronik, an indexer of an eCash node, with the theorems that make its parts correct.
--
-- The program stores blocks in RocksDB (chronik-rocksdb), follows the node and joins database and
-- mempool (chronik-indexer), and serves queries (chronik-http). A transaction that the node accepts
-- goes through `MempoolWriter`, which updates the SLP data of the mempool and then the mempool
-- itself; one that leaves is removed, or, when a block has confirmed it, deleted as mined. A block that
-- is connected or disconnected goes through the writers of the indexes (transactions, unspent outputs,
-- spends, script histories, SLP), which share one batch of writes.
--
-- Files and what they model:
--   ScriptPayload   chronik-rocksdb/src/script_payload.rs: the keys of a script, `into_vec` and
--                   `reconstruct_script`.
--   MempoolData     chronik-rocksdb/src/mempool_data.rs: the four maps of `MempoolData`;
--                   `insert_mempool_tx` in MempoolData/Insert and `delete_mempool_tx` in
--                   MempoolData/Delete, loop by loop. A method is a function from a state to an
--                   `Outcome`, which has the state that is left behind also with an error. The
--                   other files of the folder prove what the operations do, as seen by a query.
--   Slp             the types of `bitcoinsuite_slp`; `TokenStats` and `is_ignored_error` of
--                   chronik-rocksdb/src/slp.rs.
--   SlpIndex        the rest of chronik-rocksdb/src/slp.rs: the entries in SlpIndex/Entry, the columns
--                   and the writes to them in SlpIndex/Tables, `SlpReader` in SlpIndex/Reader, and
--                   `SlpWriter` in SlpIndex/Numbers (token numbers), Fetch (what a block spends), Store
--                   (the transactions), Supply (the statistics), Insert and Delete (the two handlers).
--                   The other files of the folder prove what they do.
--   MempoolSlpData  chronik-rocksdb/src/mempool_slp_data.rs: the SLP transactions of the mempool and
--                   the changes of the token statistics.
--   MergeOps        chronik-rocksdb/src/merge_ops.rs: the merge operator of a column of ordered lists.
--   Spends          chronik-rocksdb/src/spends.rs: the merges of a block that is connected or
--                   disconnected. The bytes of an entry, `as_bytes` and `interpret`, are parameters.
--   Rounds          the loop of `insert_mempool_batch_txs`, `delete_mempool_mined_txs` and
--                   `validate_slp_batch`: rounds in which an item waits while a parent of it is left.
--   Mempool         chronik-rocksdb/src/mempool.rs: `MempoolWriter`, on top of all these.
--   SlpBatch        chronik-rocksdb/src/slp_batch.rs: `validate_slp_batch`, on the loop of Rounds, with
--                   `OutpointEntry` of chronik-rocksdb/src/outpoint_data.rs.
--   InputTxNums     chronik-rocksdb/src/input_tx_nums.rs: `fetch_input_tx_nums`.
--   Utxos           chronik-rocksdb/src/utxos.rs: the entries and the loops over a block in
--                   Utxos/Defs, `insert_block_txs` in Utxos/Insert, `delete_block_txs` in
--                   Utxos/Delete. A column is a function from a key to what is stored, and a batch of
--                   writes one from a key to the new list.
--   Column          a column family of RocksDB with numbers as keys, as an interface: what is read
--                   after a write, and what an iterator gives.
--   Index           chronik-rocksdb/src/index.rs: `Index::get`, `insert` and `delete`; Index/Laws on
--                   lookups, Index/Merges on batches.
--   Txs             chronik-rocksdb/src/txs.rs: `TxWriter` and `TxReader`.
--   Blocks          chronik-rocksdb/src/blocks.rs: `BlockWriter` and `BlockReader`.
--   BlockStats      chronik-rocksdb/src/block_stats.rs: the statistics of a block.
--   ScriptTxs       chronik-rocksdb/src/script_txs.rs: `prepare_tx_nums_by_payload`, the merges of the two
--                   writers, the reader, and the count that the last page tells.
--   TransientData   chronik-rocksdb/src/transient_data.rs: the times of the transactions of a block; and
--                   of chronik-indexer/src/indexer.rs `update_transient_data` and the times of a block
--                   that is connected.
--   ScriptHistory   chronik-indexer/src/script_history.rs: a page of a script's history and the number
--                   of pages; ScriptHistory/Loops on its loops, ScriptHistory/Pages on the page.
--   ScriptUtxos     chronik-indexer/src/utxos.rs: `utxos`, the unspent outputs of a script.
--   UtxoState       chronik-indexer/src/utxos.rs: `utxo_state`.
--   Prelude, Std    shared lemmas; what the sources use of Rust's standard library: `Ord`,
--                   `BTreeSet` as a list in ascending order, `binary_search` on values and on keyed
--                   entries, `HashMap` as a function, and permutations of a list.
--   Chain           the types of `bitcoinsuite_core`.
--   Tests           the theorems at concrete inputs.
--
-- Conventions and bounds: a hash is the number that its bytes spell, a script its bytecode. The
-- order in which a hash map or a hash set is iterated is a parameter, of which only is supposed that
-- it permutes the entries. `out_idx as u32` and `input_idx as u32` do not wrap, since a transaction
-- has fewer than 2^32 inputs and outputs; amounts are unbounded integers, where the source has i128
-- for sums of 64-bit amounts. The rounds run on fuel, one more than there are items, which is enough.
-- The functions of `bitcoinsuite_core` and `bitcoinsuite_slp` (script parsing, SLP parsing and
-- validation) are the parameters `ScriptLib` and `SlpLib`; what the mempool reads of the database is
-- the interface `SlpDb`, where `none` is a failure.
--
-- A token number is below 2^32, as long as there are fewer tokens; where the source panics (an amount
-- that does not fit in 64 bits, an index out of range) the SLP index gives `panicked`.
--
-- Block heights are natural numbers. A read of RocksDB that fails ends a method before its batch is
-- written; such failures are left out. For `utxo_state` so are the failures of the node to give a
-- transaction of a block file and of its parsing, and the panic on a missing block.
--
-- Not modelled: of the database, the cache of the numbers of a script's transactions, and the
-- bytes of the stored values; the other queries of chronik-indexer; and what
-- is input, output or glue: the HTTP server, the executable, the benchmark and the TypeScript client.
-- chronik-rocksdb/src/outputs.rs is not part of the crate.
pub mod Prelude
pub mod Std
pub mod Chain
pub mod ScriptHistory
pub mod ScriptUtxos
pub mod ScriptPayload
pub mod MempoolData
pub mod MergeOps
pub mod Spends
pub mod Utxos
pub mod Rounds
pub mod Slp
pub mod MempoolSlpData
pub mod SlpBatch
pub mod SlpIndex
pub mod TransientData
pub mod InputTxNums
pub mod Column
pub mod Index
pub mod Txs
pub mod Blocks
pub mod BlockStats
pub mod UtxoState
pub mod ScriptTxs
pub mod Mempool
pub mod Tests
