-- ===== src/Mempool/Batch.antt =====
-- Batches: the loops of `MempoolWriter` end, do every transaction once and parents first, and report
-- a cycle only when there is one.
use chronik.Prelude.{
  suc, ◌≡◌, ◌≢◌, refl, Bool, true, false, List, [], ◌∷◌, any, arith, All, All-map, length,
  if◌then◌else◌,
}
use chronik.Std.Ord.{◌==◌, nat_ord}
use chronik.Std.Shuffle.{Shuffle, any-Shuffle}
use chronik.Chain.{Sha256d, TxInput}
use chronik.ScriptPayload.{ScriptLib}
use chronik.Slp.{SlpLib, SlpDb}
use chronik.MempoolData.{MempoolTxEntry}
use chronik.Rounds.{wait, step, finished, cycle, out_of_fuel}
use chronik.Rounds.Total.{rounds-total}
use chronik.Rounds.Order.{Covers, Run, stop, visited, Waits}
use chronik.Rounds.Outcome.{rounds-Completes, rounds-Stuck}
use chronik.Mempool.{
  MempoolWriter, Written, done, failed, BatchTx, visit_of, has_parent, in_batch, insert_mempool_tx,
  visit_insert, insert_mempool_batch_txs,
}

pub visit_of-step : (r : Written) {w : MempoolWriter} → visit_of r ≡ step w → r ≡ done w
visit_of-step (done w) h = cc
visit_of-step (failed e w) h = cc

visit_of-wait : (r : Written) → visit_of r ≢ wait
visit_of-wait (done w) = λ h. cc
visit_of-wait (failed e w) = λ h. cc

pub unless-step :
    (b : Bool) (r : Written) {w : MempoolWriter}
    → (if b then wait else visit_of r) ≡ step w
    → (b ≡ false) × (r ≡ done w)
unless-step true r h = cc
unless-step false r h = (refl, visit_of-step r h)

pub unless-wait : (b : Bool) (r : Written) → (if b then wait else visit_of r) ≡ wait → b ≡ true
unless-wait true r h = refl
unless-wait false r h = elim (visit_of-wait r h) [ ]

module _ (lib : ScriptLib) (slp : SlpLib) (db : SlpDb) where
  -- The transactions are inserted one after the other, each with success and before all those that
  -- spend its outputs.
  pub data Inserts : List BatchTx → MempoolWriter → MempoolWriter → Type 0 where
    no_more : (w : MempoolWriter) → Inserts [] w w
    insert :
        (txid : Sha256d) (entry : MempoolTxEntry) (later : List BatchTx) {w w' w'' : MempoolWriter}
        → has_parent (in_batch ((txid, entry) ∷ later)) entry ≡ false
        → insert_mempool_tx lib slp db txid entry w ≡ done w'
        → Inserts later w' w''
        → Inserts ((txid, entry) ∷ later) w w''

  visit_insert-step :
      (left : List BatchTx) (txid : Sha256d) (entry : MempoolTxEntry) (w : MempoolWriter)
      {w' : MempoolWriter}
      → visit_insert lib slp db left (txid, entry) w ≡ step w'
      → (has_parent (in_batch left) entry ≡ false)
        × (insert_mempool_tx lib slp db txid entry w ≡ done w')
  unfolding visit_insert
  visit_insert-step left txid entry w h =
      unless-step (has_parent (in_batch left) entry) (insert_mempool_tx lib slp db txid entry w) h

  -- What has no parent in a list has none in what the list covers.
  has_parent-Covers :
      (xs left : List BatchTx) (entry : MempoolTxEntry)
      → Covers xs left
      → has_parent (in_batch left) entry ≡ false
      → has_parent (in_batch xs) entry ≡ false
  has_parent-Covers xs left entry c h = none_of entry.tx.inputs h
    where
      none_of :
          (inputs : List TxInput)
          → any (λ input. in_batch left input.prev_out.txid) inputs ≡ false
          → any (λ input. in_batch xs input.prev_out.txid) inputs ≡ false
      none_of [] h = refl
      none_of (input ∷ inputs) h =
          ground (arith, c (λ item. item.0 == input.prev_out.txid), none_of inputs)

  Run-Inserts :
      {xs : List BatchTx} {w w' : MempoolWriter}
      → Run (visit_insert lib slp db) xs w w'
      → Inserts xs w w'
  Run-Inserts (stop w) = no_more w
  Run-Inserts (visited (txid, entry) xs left {s = w} c h run) =
      let (alone, ok) = visit_insert-step left txid entry w h in
      insert txid entry xs (has_parent-Covers ((txid, entry) ∷ xs) left entry c alone) ok
        (Run-Inserts run)

  Waits-parent :
      (left ys : List BatchTx)
      → Shuffle ys left
      → (item : BatchTx) → Waits (visit_insert lib slp db) left item
      → has_parent (in_batch ys) item.1 ≡ true
  unfolding visit_insert
  Waits-parent left ys sh (txid, entry) (w, h) =
      some_of entry.tx.inputs (
        unless-wait (has_parent (in_batch left) entry) (insert_mempool_tx lib slp db txid entry w)
          h)
    where
      some_of :
          (inputs : List TxInput)
          → any (λ input. in_batch left input.prev_out.txid) inputs ≡ true
          → any (λ input. in_batch ys input.prev_out.txid) inputs ≡ true
      some_of [] h = h
      some_of (input ∷ inputs) h =
          ground (arith, any-Shuffle (λ item. item.0 == input.prev_out.txid) sh, some_of inputs)

module _ (lib : ScriptLib) (slp : SlpLib) (db : SlpDb) (order : List BatchTx → List BatchTx)
    (shuffles : (xs : List BatchTx) → Shuffle (order xs) xs) (txs : List BatchTx)
    (w : MempoolWriter) where
  -- Whatever the order in which a hash map is iterated, the rounds of a batch come to an end.
  pub insert_batch-terminates : insert_mempool_batch_txs lib slp db order txs w ≢ out_of_fuel
  unfolding insert_mempool_batch_txs
  insert_batch-terminates =
      rounds-total (visit_insert lib slp db) order shuffles (suc (length txs)) txs w (omega arith)

  -- Whatever the order in which a hash map is iterated: a batch that is inserted with success has
  -- all its transactions inserted, each once, in some order in which no transaction has an input
  -- that spends an output of itself or of a later one.
  pub insert_batch-parents_first :
      {w' : MempoolWriter}
      → insert_mempool_batch_txs lib slp db order txs w ≡ finished w'
      → (seq : List BatchTx) × Shuffle seq txs × Inserts lib slp db seq w w'
  unfolding insert_mempool_batch_txs
  insert_batch-parents_first h =
      let (seq, sh, run) =
        rounds-Completes (visit_insert lib slp db) order shuffles (suc (length txs)) txs w h in
      (seq, sh, Run-Inserts lib slp db run)

  -- Whatever the order in which a hash map is iterated: when the insertion of a batch reports a
  -- cycle, every transaction that it reports spends an output of a transaction that it reports.
  pub insert_batch-cycle :
      {left : List BatchTx} {w' : MempoolWriter}
      → insert_mempool_batch_txs lib slp db order txs w ≡ cycle left w'
      → All (λ item. has_parent (in_batch left) item.1 ≡ true) left
  unfolding insert_mempool_batch_txs
  insert_batch-cycle {left} h =
      let (all, sh, waiting) =
        rounds-Stuck (visit_insert lib slp db) order shuffles (suc (length txs)) txs w h in
      All-map left (Waits-parent lib slp db all left sh) waiting
