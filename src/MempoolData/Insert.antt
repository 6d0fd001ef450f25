-- ===== src/MempoolData/Insert.antt =====
-- `MempoolData::insert_mempool_tx`.
use chronik.Prelude.{ℕ, ℤ, not, ◌&&◌, List, [], if◌then◌else◌}
use chronik.Std.Ord.{nat_ord, int_ord, list_ord, pair_ord}
use chronik.Std.BTreeSet
use chronik.Std.HashMap
use chronik.Std.HashMap.{unwrap_or, is_some}
use chronik.Chain.{Bytes, Sha256d, OutPoint, outpoint_ord, UnhashedTx, TxInput, TxOutput, Coin}
use chronik.ScriptPayload.{ScriptLib, payload_keys}
use chronik.MempoolData.Defs.{
  TimedTx, Spend, MempoolData, MempoolTxEntry, UtxoDelta, M, ◌>>◌, fail_if, for_each, enumerate,
  zip, delta_of, set_delta, tidy_delta, add_script_tx, duplicate_utxo, utxo_already_spent,
  output_already_spent, duplicate_tx,
}

-- One key of an output: the transaction joins the script's history, the output its UTXOs.
unfoldable pub insert_output_key : ℤ → OutPoint → Bytes → M (Unit {0})
insert_output_key time outpoint key s =
    let s' = add_script_tx (time, outpoint.txid) key s in
    let delta = delta_of s' key in
    fail_if (BTreeSet.contains outpoint delta.inserts) (duplicate_utxo outpoint)
      (set_delta key (record delta { inserts = BTreeSet.insert outpoint delta.inserts }) s')

-- The outpoint is spent: it leaves the new UTXOs of the mempool, or else joins the deleted ones.
unfoldable pub spend_delta : OutPoint → UtxoDelta → UtxoDelta
spend_delta prev_out delta =
    if BTreeSet.contains prev_out delta.inserts
    then record delta { inserts = BTreeSet.remove prev_out delta.inserts }
    else record delta { deletes = BTreeSet.insert prev_out delta.deletes }

unfoldable pub insert_input_key : TimedTx → OutPoint → Bytes → M (Unit {0})
insert_input_key e prev_out key s =
    let s' = add_script_tx e key s in
    let delta = delta_of s' key in
    fail_if
      (not (BTreeSet.contains prev_out delta.inserts) && BTreeSet.contains prev_out delta.deletes)
      (utxo_already_spent prev_out) (tidy_delta key (spend_delta prev_out delta) s')

-- The spends of an output's transaction.
abbrev pub spends_of : MempoolData → Sha256d → List Spend
spends_of s txid = unwrap_or (s.spends txid) []

unfoldable pub insert_spend : Sha256d → ℕ → OutPoint → M (Unit {0})
insert_spend txid input_idx prev_out s =
    let spend : Spend = (prev_out.out_idx, (txid, input_idx)) in
    let spends = spends_of s prev_out.txid in
    fail_if (BTreeSet.contains spend spends) (output_already_spent prev_out)
      (record s { spends = HashMap.insert prev_out.txid (BTreeSet.insert spend spends) s.spends })

-- An entry under the same id is replaced before the error.
unfoldable pub insert_entry : Sha256d → MempoolTxEntry → M (Unit {0})
insert_entry txid entry s =
    fail_if (is_some (s.txs txid)) (duplicate_tx txid)
      (record s { txs = HashMap.insert txid entry s.txs })

module _ (lib : ScriptLib) where
  unfoldable pub insert_output : Sha256d → ℤ → ℕ × TxOutput → M (Unit {0})
  insert_output txid time (out_idx, output) =
      for_each (insert_output_key time (record { txid = txid; out_idx = out_idx }))
        (payload_keys lib output.script)

  unfoldable pub insert_input : Sha256d → ℤ → ℕ × (TxInput × Coin) → M (Unit {0})
  insert_input txid time (input_idx, (input, spent_coin)) = do
    for_each (insert_input_key (time, txid) input.prev_out)
        (payload_keys lib spent_coin.tx_output.script)
    insert_spend txid input_idx input.prev_out

  unfoldable pub insert_mempool_tx : Sha256d → UnhashedTx → List Coin → ℤ → M (Unit {0})
  insert_mempool_tx txid tx spent_coins time = do
    for_each (insert_output txid time) (enumerate 0 tx.outputs)
    for_each (insert_input txid time) (enumerate 0 (zip tx.inputs spent_coins))
    insert_entry txid (record { tx = tx; spent_coins = spent_coins; time_first_seen = time })
