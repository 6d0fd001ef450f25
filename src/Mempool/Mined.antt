-- ===== src/Mempool/Mined.antt =====
-- The deletion of mined transactions: the rounds end, and delete every transaction once, parents
-- first.
use chronik.Prelude.{
  suc, ◌≡◌, ◌≢◌, refl, false, Option, none, some, List, [], ◌∷◌, any, arith, length,
}
use chronik.Std.Ord.{◌==◌, nat_ord}
use chronik.Std.Shuffle.{Shuffle}
use chronik.Chain.{Sha256d, TxInput}
use chronik.ScriptPayload.{ScriptLib}
use chronik.Slp.{SlpDb}
use chronik.MempoolData.{MempoolTxEntry, MempoolDeleteMode, tx}
use chronik.Rounds.{step, fail, finished, out_of_fuel}
use chronik.Rounds.Total.{rounds-total}
use chronik.Rounds.Order.{Covers, Run, stop, visited}
use chronik.Rounds.Outcome.{rounds-Completes}
use chronik.Mempool.{
  MempoolWriter, MempoolError, done, has_parent, in_ids, delete_mempool_tx, visit_known,
  visit_delete, delete_mempool_mined_txs,
}
use chronik.Mempool.Batch.{unless-step}

fail_not_step : (e : MempoolError) {w w' : MempoolWriter} → fail e w ≢ step w'
fail_not_step e = λ h. cc

module _ (lib : ScriptLib) (db : SlpDb) where
  -- The transactions are deleted as mined, one after the other, each with success, present when its
  -- turn comes, and before all those that spend its outputs.
  pub data Deletes : List Sha256d → MempoolWriter → MempoolWriter → Type 0 where
    no_more : (w : MempoolWriter) → Deletes [] w w
    delete :
        (txid : Sha256d) (entry : MempoolTxEntry) (later : List Sha256d) {w w' w'' : MempoolWriter}
        → w.mempool.txs txid ≡ some entry
        → has_parent (in_ids (txid ∷ later)) entry ≡ false
        → delete_mempool_tx lib db txid MempoolDeleteMode.mined w ≡ done w'
        → Deletes later w' w''
        → Deletes (txid ∷ later) w w''

  -- What has no parent among the ids has none among those that they cover.
  has_parent-in_ids :
      (xs left : List Sha256d) (entry : MempoolTxEntry)
      → Covers xs left
      → has_parent (in_ids left) entry ≡ false
      → has_parent (in_ids xs) entry ≡ false
  has_parent-in_ids xs left entry c h = none_of entry.tx.inputs h
    where
      none_of :
          (inputs : List TxInput)
          → any (λ input. in_ids left input.prev_out.txid) inputs ≡ false
          → any (λ input. in_ids xs input.prev_out.txid) inputs ≡ false
      none_of [] h = refl
      none_of (input ∷ inputs) h =
          ground (arith, c (λ id. id == input.prev_out.txid), none_of inputs)

  -- The step that deletes a transaction finds it, and finds no parent of it that is left.
  record Deleted (left : List Sha256d) (txid : Sha256d) (w w' : MempoolWriter) : Type 0 where
    entry : MempoolTxEntry
    known : w.mempool.txs txid ≡ some entry
    alone : has_parent (in_ids left) entry ≡ false
    removed : delete_mempool_tx lib db txid MempoolDeleteMode.mined w ≡ done w'

  visit_known-step :
      (left : List Sha256d) (txid : Sha256d) (w : MempoolWriter) {w' : MempoolWriter}
      (found : Option MempoolTxEntry)
      → w.mempool.txs txid ≡ found
      → visit_known lib db left txid w found ≡ step w'
      → Deleted left txid w w'
  unfolding visit_known
  visit_known-step left txid w none e h = elim (fail_not_step _ h) [ ]
  visit_known-step left txid w (some entry) e h =
      let (alone, removed) =
        unless-step (has_parent (in_ids left) entry)
          (delete_mempool_tx lib db txid MempoolDeleteMode.mined w) h in
      record { entry = entry; known = e; alone = alone; removed = removed }

  visit_delete-step :
      (left : List Sha256d) (txid : Sha256d) (w : MempoolWriter) {w' : MempoolWriter}
      → visit_delete lib db left txid w ≡ step w'
      → Deleted left txid w w'
  unfolding visit_delete tx
  visit_delete-step left txid w h = visit_known-step left txid w (w.mempool.txs txid) refl h

  Run-Deletes :
      {xs : List Sha256d} {w w' : MempoolWriter}
      → Run (visit_delete lib db) xs w w'
      → Deletes xs w w'
  Run-Deletes (stop w) = no_more w
  Run-Deletes (visited txid xs left {s = w} c h run) =
      let d = visit_delete-step left txid w h in
      delete txid d.entry xs d.known (has_parent-in_ids (txid ∷ xs) left d.entry c d.alone)
        d.removed (Run-Deletes run)

module _ (lib : ScriptLib) (db : SlpDb) (order : List Sha256d → List Sha256d)
    (shuffles : (xs : List Sha256d) → Shuffle (order xs) xs) (txids : List Sha256d)
    (w : MempoolWriter) where
  -- Whatever the order in which a hash set is iterated, the rounds of the deletion come to an end.
  pub delete_mined-terminates : delete_mempool_mined_txs lib db order txids w ≢ out_of_fuel
  unfolding delete_mempool_mined_txs
  delete_mined-terminates =
      rounds-total (visit_delete lib db) order shuffles (suc (length txids)) txids w (omega arith)

  -- Whatever the order in which a hash set is iterated: a deletion that succeeds has deleted every
  -- transaction as mined, each once and found in the mempool, in some order in which no transaction
  -- has an input that spends an output of itself or of a later one.
  pub delete_mined-parents_first :
      {w' : MempoolWriter}
      → delete_mempool_mined_txs lib db order txids w ≡ finished w'
      → (seq : List Sha256d) × Shuffle seq txids × Deletes lib db seq w w'
  unfolding delete_mempool_mined_txs
  delete_mined-parents_first h =
      let (seq, sh, run) =
        rounds-Completes (visit_delete lib db) order shuffles (suc (length txids)) txids w h in
      (seq, sh, Run-Deletes lib db run)
