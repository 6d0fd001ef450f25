-- ===== src/Utxos/Delete.antt =====
-- `UtxosWriter::delete_block_txs`, for a block that is disconnected.
use chronik.Prelude.{ℕ, Option, none, some, List, [], ◌∷◌, map, enumerate, concat_map, tail}
use chronik.Std.Ord.{nat_ord, list_ord}
use chronik.Std.HashMap
use chronik.Std.HashMap.{HashMap, unwrap_or}
use chronik.Std.Keyed.{insert_missing, remove_present}
use chronik.Chain.{Bytes, Sha256d, TxInput, TxOutput, UnhashedTx}
use chronik.ScriptPayload.{ScriptLib, script_payloads, into_vec}
use chronik.Slp.{TxNum}
use chronik.SlpBatch.{OutpointEntry}
use chronik.InputTxNums.{tx_num_of}
use chronik.Utxos.Defs.{
  UtxoEntry, UtxoData, unknown_input_spent, data_of, search_entry, block_outputs,
}
use chronik.Utxos.Insert.{Changed, changed, inconsistent}

-- The inputs of all transactions but the first, each with its place.
abbrev pub placed_inputs : ℕ × UnhashedTx → List (ℕ × (ℕ × TxInput))
placed_inputs (tx_pos, tx) = map (λ item. (tx_pos, item)) (enumerate 0 tx.inputs)

module _ (lib : ScriptLib) (db : HashMap Bytes (List UtxoData)) where
  unfoldable pub update_map_or_db_entry :
      Bytes
      → (List UtxoData → List UtxoData)
      → HashMap Bytes (List UtxoData)
      → HashMap Bytes (List UtxoData)
  update_map_or_db_entry key f m =
      HashMap.insert key (f (unwrap_or (m key) (unwrap_or (db key) []))) m

  -- The entries of one spent output, under each key of its script.
  abbrev pub spent_entries : OutpointEntry → TxOutput → List (Bytes × UtxoEntry)
  spent_entries o output =
      map
        (λ st. (
          into_vec st.payload,
          record { outpoint = o; value = output.value; is_partial_script = st.is_partial },
        ))
        (script_payloads lib output.script)

  unfoldable pub restore_all :
      List (Bytes × UtxoEntry) → HashMap Bytes (List UtxoData) → HashMap Bytes (List UtxoData)
  unfolding update_map_or_db_entry
  restore_all [] m = m
  restore_all ((key, e) ∷ items) m = restore_all items (
      update_map_or_db_entry key
        (λ entries. insert_missing (data_of e) entries (search_entry e.outpoint entries)) m)

  unfoldable pub take_back_all :
      List (Bytes × UtxoEntry) → HashMap Bytes (List UtxoData) → HashMap Bytes (List UtxoData)
  unfolding update_map_or_db_entry
  take_back_all [] m = m
  take_back_all ((key, e) ∷ items) m = take_back_all items (
      update_map_or_db_entry key
        (λ entries. remove_present entries (search_entry e.outpoint entries)) m)

  module _ (num_of : Sha256d → Option TxNum) (spent : ℕ → ℕ → TxOutput) where
    -- An input: the output that it spends is put back, or its transaction is not known.
    abbrev pub restore_input :
        ℕ × (ℕ × TxInput)
        → Option TxNum
        → (HashMap Bytes (List UtxoData) → Changed (HashMap Bytes (List UtxoData)))
        → HashMap Bytes (List UtxoData)
        → Changed (HashMap Bytes (List UtxoData))
    restore_input (tx_pos, (input_idx, input)) none rest m =
        inconsistent (unknown_input_spent input)
    restore_input (tx_pos, (input_idx, input)) (some n) rest m = rest (
        restore_all
          (spent_entries (record { tx_num = n; out_idx = input.prev_out.out_idx })
            (spent tx_pos input_idx))
          m)

    unfoldable pub restore_inputs :
        List (ℕ × (ℕ × TxInput))
        → HashMap Bytes (List UtxoData)
        → Changed (HashMap Bytes (List UtxoData))
    unfolding restore_all
    restore_inputs [] m = changed m
    restore_inputs (item ∷ items) m =
        restore_input item (num_of item.1.1.prev_out.txid) (restore_inputs items) m

  abbrev pub take_back :
      List (Bytes × UtxoEntry)
      → Changed (HashMap Bytes (List UtxoData))
      → Changed (HashMap Bytes (List UtxoData))
  take_back items (changed m) = changed (take_back_all items m)
  take_back items (inconsistent e) = inconsistent e

  -- The values to write, by key.
  unfoldable pub delete_block_txs :
      TxNum
      → (ℕ → Sha256d)
      → (Sha256d → Option TxNum)
      → List UnhashedTx
      → (ℕ → ℕ → TxOutput)
      → Changed (HashMap Bytes (List UtxoData))
  unfolding restore_inputs take_back_all
  delete_block_txs first_tx_num txid tx_num_by_txid txs spent =
      take_back (block_outputs lib first_tx_num txs) (
        restore_inputs (tx_num_of first_tx_num txid tx_num_by_txid txs) spent
          (concat_map placed_inputs (enumerate 0 (tail txs))) HashMap.empty)
