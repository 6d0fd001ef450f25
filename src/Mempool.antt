-- ===== src/Mempool.antt =====
-- chronik-rocksdb/src/mempool.rs: `MempoolWriter`, which keeps `MempoolData` and `MempoolSlpData` in
-- step, and inserts and deletes whole batches with parents before children.
pub mod Batch
pub mod Mined
pub mod Contents
use chronik.Prelude.{
  ℕ, suc, Bool, true, false, Option, none, some, List, any, length, if◌then◌else◌,
}
use chronik.Std.Ord.{◌==◌, nat_ord}
use chronik.Chain.{Sha256d, TxInput, UnhashedTx}
use chronik.ScriptPayload.{ScriptLib}
use chronik.Slp.{SlpLib, SlpDb}
use chronik.MempoolData.{
  MempoolData, MempoolTxEntry, MempoolDeleteMode, MempoolDataError, Outcome, ok, err, tx,
}
use chronik.MempoolData.Insert
use chronik.MempoolData.Delete
use chronik.MempoolSlpData
use chronik.MempoolSlpData.{MempoolSlpData}
use chronik.Rounds.{Visit, wait, step, fail, Ended, rounds}

pub record MempoolWriter : Type 0 where
  pub mempool : MempoolData
  pub mempool_slp : MempoolSlpData

-- `NoSuchTx`, an error of `MempoolData`, or a failure of the database. `MempoolCycle` is the
-- constructor `cycle` of `Ended`, with the items whose ids it reports.
pub data MempoolError : Type 0 where
  database : MempoolError
  mempool_data : MempoolDataError → MempoolError
  no_such_tx : Sha256d → MempoolError

pub data Written : Type 0 where
  done : MempoolWriter → Written
  failed : MempoolError → MempoolWriter → Written

-- An entry of the hash map that is the batch.
abbrev pub BatchTx : Type 0
BatchTx = Sha256d × MempoolTxEntry

-- `?` within the loop.
abbrev pub visit_of : Written → Visit MempoolError MempoolWriter
visit_of (done w) = step w
visit_of (failed e w) = fail e w

-- The SLP data is written first; the mempool is not touched if that fails.
abbrev pub after_insert : MempoolWriter → Option MempoolSlpData → Outcome (Unit {0}) → Written
after_insert w none data' = failed database w
after_insert w (some slp') (ok _ data') = done (record { mempool = data'; mempool_slp = slp' })
after_insert w (some slp') (err e data') =
    failed (mempool_data e) (record { mempool = data'; mempool_slp = slp' })

abbrev pub after_delete_slp : MempoolWriter → MempoolData → Option MempoolSlpData → Written
after_delete_slp w data' none = failed database (record w { mempool = data' })
after_delete_slp w data' (some slp') = done (record { mempool = data'; mempool_slp = slp' })

-- The mempool is written first, and gives the transaction that leaves the SLP data.
abbrev pub after_delete :
    MempoolWriter → (UnhashedTx → Option MempoolSlpData) → Outcome UnhashedTx → Written
after_delete w slp' (ok tx data') = after_delete_slp w data' (slp' tx)
after_delete w slp' (err e data') = failed (mempool_data e) (record w { mempool = data' })

-- An input spends an output of one of the transactions.
abbrev pub has_parent : (Sha256d → Bool) → MempoolTxEntry → Bool
has_parent among entry = any (λ input. among input.prev_out.txid) entry.tx.inputs

abbrev pub in_batch : List BatchTx → Sha256d → Bool
in_batch left txid = any (λ item. item.0 == txid) left

abbrev pub in_ids : List Sha256d → Sha256d → Bool
in_ids left txid = any (λ id. id == txid) left

module _ (lib : ScriptLib) (slp : SlpLib) (db : SlpDb) where
  unfoldable pub insert_mempool_tx : Sha256d → MempoolTxEntry → MempoolWriter → Written
  insert_mempool_tx txid entry w =
      after_insert w (MempoolSlpData.insert_mempool_tx slp db txid entry.tx w.mempool_slp) (
        Insert.insert_mempool_tx lib txid entry.tx entry.spent_coins entry.time_first_seen
          w.mempool)

  -- A transaction with a parent in this round's batch waits for the next round.
  unfoldable pub visit_insert :
      List BatchTx → BatchTx → MempoolWriter → Visit MempoolError MempoolWriter
  unfolding insert_mempool_tx
  visit_insert left (txid, entry) w =
      if has_parent (in_batch left) entry then wait else visit_of (insert_mempool_tx txid entry w)

  unfoldable pub insert_mempool_batch_txs :
      (List BatchTx → List BatchTx)
      → List BatchTx
      → MempoolWriter
      → Ended BatchTx MempoolError MempoolWriter
  unfolding visit_insert
  insert_mempool_batch_txs order txs w = rounds visit_insert order (suc (length txs)) txs w

module _ (lib : ScriptLib) (db : SlpDb) where
  unfoldable pub delete_mempool_tx : Sha256d → MempoolDeleteMode → MempoolWriter → Written
  delete_mempool_tx txid mode w =
      after_delete w (λ tx. MempoolSlpData.delete_mempool_tx db txid tx w.mempool_slp)
        (Delete.delete_mempool_tx lib txid mode w.mempool)

  unfoldable pub visit_known :
      List Sha256d
      → Sha256d
      → MempoolWriter
      → Option MempoolTxEntry
      → Visit MempoolError MempoolWriter
  unfolding delete_mempool_tx
  visit_known left txid w none = fail (no_such_tx txid) w
  visit_known left txid w (some entry) =
      if has_parent (in_ids left) entry
      then wait
      else visit_of (delete_mempool_tx txid MempoolDeleteMode.mined w)

  unfoldable pub visit_delete :
      List Sha256d → Sha256d → MempoolWriter → Visit MempoolError MempoolWriter
  unfolding tx visit_known
  visit_delete left txid w = visit_known left txid w (tx w.mempool txid)

  unfoldable pub delete_mempool_mined_txs :
      (List Sha256d → List Sha256d)
      → List Sha256d
      → MempoolWriter
      → Ended Sha256d MempoolError MempoolWriter
  unfolding visit_delete
  delete_mempool_mined_txs order txids w = rounds visit_delete order (suc (length txids)) txids w
