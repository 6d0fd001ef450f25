-- ===== src/MempoolData/DeleteLaws.antt =====
-- What `delete_mempool_tx` does to each of the four maps, in both modes.
use chronik.Prelude.{
  ◌≡◌, ◌∙◌, ap, Bool, not, ◌&&◌, ◌||◌, Option, none, some, any, arith, if◌then◌else◌,
}
use chronik.Std.Ord.{◌==◌, nat_ord, int_ord, list_ord, pair_ord}
use chronik.Std.BTreeSet.{Distinct}
use chronik.Std.HashMap
use chronik.Chain.{Bytes, Sha256d, OutPoint, outpoint_ord, UnhashedTx}
use chronik.ScriptPayload.{ScriptLib}
use chronik.MempoolData.Defs.{
  TimedTx, Spend, MempoolTxEntry, MempoolData, MempoolDeleteMode, ok, err, enumerate, no_such_tx,
}
use chronik.MempoolData.Delete.{delete_entry, delete_mempool_tx}
use chronik.MempoolData.View.{in_history, inserted, deleted, is_spent_by, run}
use chronik.MempoolData.KeyView.{KeyView, makes, names_output, names_input, spends, prev_outs}
use chronik.MempoolData.KeyUndo.{unmake_output, joins, run-unspend_input, run-unmake_output}
use chronik.MempoolData.DeleteSpec.{delete_entry-view}
use chronik.MempoolData.DeleteTxs.{delete_entry-tx}
use chronik.MempoolData.InsertLaws.{inputs_of, spends_as}

-- Deleting an unknown transaction fails and changes nothing.
pub delete_mempool_tx-unknown :
    (lib : ScriptLib) (mode : MempoolDeleteMode) (txid : Sha256d) (s : MempoolData)
    → s.txs txid ≡ none
    → delete_mempool_tx lib txid mode s ≡ err (no_such_tx txid) s
unfolding delete_mempool_tx
delete_mempool_tx-unknown lib mode txid s e = rw (e, delete_mempool_tx)

module _ (lib : ScriptLib) (mode : MempoolDeleteMode) (txid : Sha256d) (entry : MempoolTxEntry)
    (tx : UnhashedTx) (s s' : MempoolData) (known : s.txs txid ≡ some entry)
    (done : delete_mempool_tx lib txid mode s ≡ ok tx s') where
  without_entry : MempoolData
  without_entry = record s { txs = HashMap.remove txid s.txs }

  entered : delete_entry lib mode txid entry without_entry ≡ ok tx s'
  unfolding without_entry delete_mempool_tx
  entered = rw (known, delete_mempool_tx) at done

  -- If the deletion succeeds, then `txs` loses the transaction and nothing else; and the spends of
  -- every transaction `t` lose exactly the inputs of the deleted one.
  pub delete_mempool_tx-txs_spends :
      (t : Sha256d) (sp : Spend)
      → (s'.txs t ≡ (if t == txid then none else s.txs t))
        × (is_spent_by s' t sp ≡ (
            not (any (spends_as t sp txid) (inputs_of entry.tx entry.spent_coins))
            && is_spent_by s t sp))
  unfolding without_entry is_spent_by
  delete_mempool_tx-txs_spends t sp =
      let e = delete_entry-tx t sp txid lib mode entry tx without_entry s' entered in
      (
        ap (λ (w : Bool × Option MempoolTxEntry). w.1) e,
        ap (λ (w : Bool × Option MempoolTxEntry). w.0) e,
      )

  -- If the deletion succeeds and no two inputs spend the same outpoint, then at every key: the
  -- history loses the transaction; what it spent leaves the deletes, or else joins the inserts; its
  -- outputs leave the inserts; and if it was mined, those of its outputs that were not among the
  -- inserts join the deletes.
  pub delete_mempool_tx-keys :
      Distinct (prev_outs (inputs_of entry.tx entry.spent_coins))
      → (q : Bytes) (x : TimedTx) (o : OutPoint)
      → let inputs = inputs_of entry.tx entry.spent_coins in
        let outputs = enumerate 0 entry.tx.outputs in
        let named = any (names_output lib q) outputs || any (names_input lib q) inputs in
        let made = any (makes lib q o txid) outputs in
        let spent = any (spends lib q o) inputs in
        let back = inserted s q o || (spent && not (deleted s q o)) in
        (in_history s' q x
          ≡ (not (named && x == (entry.time_first_seen, txid)) && in_history s q x))
        × (inserted s' q o ≡ (not made && back))
        × (deleted s' q o ≡ ((not spent && deleted s q o) || (made && joins mode back)))
  unfolding without_entry in_history inserted deleted
  delete_mempool_tx-keys distinct q x o =
      let time = entry.time_first_seen in
      let e =
        delete_entry-view q x o lib mode txid entry tx without_entry s' entered
        ∙ ap (run (unmake_output lib txid time q x o mode) (enumerate 0 entry.tx.outputs)) (
            run-unspend_input lib txid time q x o (inputs_of entry.tx entry.spent_coins) _ _ _
              distinct)
        ∙ run-unmake_output lib txid time q x o mode 0 entry.tx.outputs _ _ _ in
      (
        ap (λ (w : KeyView). w.0) e ∙ ground arith,
        ap (λ (w : KeyView). w.1.0) e,
        ap (λ (w : KeyView). w.1.1) e,
      )
