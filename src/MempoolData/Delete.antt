-- ===== src/MempoolData/Delete.antt =====
-- `MempoolData::delete_mempool_tx`.
use chronik.Prelude.{ℕ, ℤ, not, ◌&&◌, none, some, List, if◌then◌else◌}
use chronik.Std.Ord.{nat_ord, int_ord, list_ord, pair_ord}
use chronik.Std.BTreeSet
use chronik.Std.BTreeSet.{is_empty}
use chronik.Std.HashMap
use chronik.Std.HashMap.{unwrap_or, is_some}
use chronik.Chain.{Bytes, Sha256d, OutPoint, outpoint_ord, UnhashedTx, TxInput, TxOutput, Coin}
use chronik.ScriptPayload.{ScriptLib, payload_keys}
use chronik.MempoolData.Defs.{
  TimedTx, Spend, MempoolTxEntry, UtxoDelta, MempoolDeleteMode, M, ok, err, ◌>>◌, fail_if, for_each,
  enumerate, zip, delta_of, tidy_delta, remove_script_tx, utxo_already_unspent,
  output_already_unspent, utxo_doesnt_exist, utxo_already_spent, no_such_tx,
}
use chronik.MempoolData.Insert.{spend_delta}

-- The outpoint is unspent again: it leaves the deleted UTXOs, or else joins the new ones.
unfoldable pub unspend_delta : OutPoint → UtxoDelta → UtxoDelta
unspend_delta prev_out delta =
    if BTreeSet.contains prev_out delta.deletes
    then record delta { deletes = BTreeSet.remove prev_out delta.deletes }
    else record delta { inserts = BTreeSet.insert prev_out delta.inserts }

unfoldable pub delete_input_key : TimedTx → OutPoint → Bytes → M (Unit {0})
delete_input_key e prev_out key s =
    let s' = remove_script_tx e key s in
    let delta = delta_of s' key in
    fail_if
      (not (BTreeSet.contains prev_out delta.deletes) && BTreeSet.contains prev_out delta.inserts)
      (utxo_already_unspent prev_out) (tidy_delta key (unspend_delta prev_out delta) s')

-- The set is dropped with its last spend.
unfoldable pub remove_spend : Sha256d → ℕ → OutPoint → List Spend → M (Unit {0})
remove_spend txid input_idx prev_out spends s =
    let spend : Spend = (prev_out.out_idx, (txid, input_idx)) in
    let rest = BTreeSet.remove spend spends in
    if BTreeSet.contains spend spends
    then ok tt (record s {
      spends =
          if is_empty rest
          then HashMap.remove prev_out.txid s.spends
          else HashMap.insert prev_out.txid rest s.spends;
    })
    else err (output_already_unspent prev_out) s

unfoldable pub delete_spend : Sha256d → ℕ → OutPoint → M (Unit {0})
unfolding remove_spend
delete_spend txid input_idx prev_out s = elim (s.spends prev_out.txid) [
  | none ↦ err (output_already_unspent prev_out) s
  | some spends ↦ remove_spend txid input_idx prev_out spends s
]

-- A transaction that leaves for good takes its output back; that of a mined one is now in the
-- database, so an output that the mempool has already spent counts as deleted.
unfoldable pub delete_output_key : MempoolDeleteMode → TimedTx → OutPoint → Bytes → M (Unit {0})
delete_output_key MempoolDeleteMode.remove e outpoint key s =
    let s' = remove_script_tx e key s in
    let delta = delta_of s' key in
    if BTreeSet.contains outpoint delta.inserts
    then ok tt
        (tidy_delta key (record delta { inserts = BTreeSet.remove outpoint delta.inserts }) s')
    else err (utxo_doesnt_exist outpoint) s'
delete_output_key MempoolDeleteMode.mined e outpoint key s =
    let s' = remove_script_tx e key s in
    let delta = delta_of s' key in
    fail_if
      (not (BTreeSet.contains outpoint delta.inserts) && BTreeSet.contains outpoint delta.deletes)
      (utxo_already_spent outpoint) (tidy_delta key (spend_delta outpoint delta) s')

module _ (lib : ScriptLib) where
  unfoldable pub delete_input : Sha256d → ℤ → ℕ × (TxInput × Coin) → M (Unit {0})
  delete_input txid time (input_idx, (input, spent_coin)) = do
    for_each (delete_input_key (time, txid) input.prev_out)
        (payload_keys lib spent_coin.tx_output.script)
    delete_spend txid input_idx input.prev_out

  unfoldable pub delete_output : MempoolDeleteMode → Sha256d → ℤ → ℕ × TxOutput → M (Unit {0})
  delete_output mode txid time (out_idx, output) =
      for_each (delete_output_key mode (time, txid) (record { txid = txid; out_idx = out_idx }))
        (payload_keys lib output.script)

  unfoldable pub delete_entry : MempoolDeleteMode → Sha256d → MempoolTxEntry → M UnhashedTx
  delete_entry mode txid entry = do
    for_each (delete_input txid entry.time_first_seen)
        (enumerate 0 (zip entry.tx.inputs entry.spent_coins))
    for_each (delete_output mode txid entry.time_first_seen) (enumerate 0 entry.tx.outputs)
    λ s. ok entry.tx s

  unfoldable pub delete_mempool_tx : Sha256d → MempoolDeleteMode → M UnhashedTx
  unfolding delete_entry
  delete_mempool_tx txid mode s = elim (s.txs txid) [
    | none ↦ err (no_such_tx txid) s
    | some entry ↦ delete_entry mode txid entry (record s { txs = HashMap.remove txid s.txs })
  ]
