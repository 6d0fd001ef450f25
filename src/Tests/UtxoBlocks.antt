-- ===== src/Tests/UtxoBlocks.antt =====
-- A block that pays one script and spends a stored output of another.
use chronik.Prelude.{
  ℕ, pos, false, refl, ◌≡◌, none, some, Option, [], ◌∷◌, List, ◌<◌, ◌^◌, ◌+◌, arith, if◌then◌else◌,
}
use chronik.Std.Ord.{◌==◌, nat_ord, list_ord}
use chronik.Std.HashMap.{HashMap, empty, unwrap_or}
use chronik.Std.SortedVec.{binary_search}
use chronik.Std.Keyed.{or_else, lookup}
use chronik.Chain.{Bytes, Sha256d, UnhashedTx, TxOutput}
use chronik.ScriptPayload.{prefix_byte, into_vec, script_payloads}
use chronik.Slp.{TxNum}
use chronik.SlpBatch.{entry_ord}
use chronik.Utxos.{
  UtxoEntry, UtxoData, Changed, changed, inconsistent, data_of, entry_of, block_outputs,
  block_inputs, commit, push_all, insert_all, remove_all, new_insert_utxos, new_delete_utxos,
  insert_block_txs, restore_inputs, delete_block_txs,
}
use chronik.Utxos.Field.{entry_of-data_of}
use chronik.Utxos.Grouped.{at_key}
use chronik.Utxos.Entries.{entry_at, made, mentions, Holds}
use chronik.Utxos.InsertLaws.{insert_block_txs-entries}
use chronik.Utxos.DeleteLaws.{made_in, block_restored, delete_block_txs-entries}
use chronik.Utxos.RoundTrip.{delete_block_txs-insert_block_txs}
use chronik.Tests.Fixture.{toy_scripts, pay_to, spend_of}

abbrev whole_coin : UtxoEntry
whole_coin = record {
  outpoint = record { tx_num = 1; out_idx = 0 };
  value = pos 10;
  is_partial_script = false;
}

entry_of-data_of_example :
    (entry_of (data_of whole_coin) ≡ whole_coin) × ((data_of whole_coin).field < 2 ^ 64)
entry_of-data_of_example = entry_of-data_of whole_coin 10 refl (omega arith)

abbrev key_of : ℕ → Bytes
key_of address = 3 ∷ address ∷ []

abbrev stored_coin : List UtxoData
stored_coin = record { outpoint = record { tx_num = 1; out_idx = 0 }; field = 10 } ∷ []

abbrev coin_db : HashMap Bytes (List UtxoData)
coin_db key = if key == key_of 4 then some stored_coin else none

abbrev block : List UnhashedTx
block =
    record { inputs = []; outputs = [] }
    ∷ record { inputs = spend_of 7 0 ∷ []; outputs = pay_to 5 ∷ [] }
    ∷ []

abbrev spent_coin : ℕ → ℕ → TxOutput
spent_coin tx_pos input_idx = pay_to 4

abbrev block_txid : ℕ → Sha256d
block_txid tx_idx = 20 + tx_idx

abbrev stored_num : Sha256d → Option TxNum
stored_num txid = some 1

abbrev changes_of : Changed (HashMap Bytes (List UtxoData)) → HashMap Bytes (List UtxoData)
changes_of (changed m) = m
changes_of (inconsistent e) = empty

abbrev connected : HashMap Bytes (List UtxoData)
connected = changes_of (insert_block_txs toy_scripts coin_db 3 spent_coin block ((1 ∷ []) ∷ []))

abbrev disconnected : HashMap Bytes (List UtxoData)
disconnected = changes_of (
    delete_block_txs toy_scripts (commit connected coin_db) 3 block_txid stored_num block
      spent_coin)

connect :
    insert_block_txs toy_scripts coin_db 3 spent_coin block ((1 ∷ []) ∷ []) ≡ changed connected
unfolding insert_block_txs new_insert_utxos new_delete_utxos push_all insert_all remove_all
    block_outputs block_inputs into_vec prefix_byte script_payloads ◌==◌ list_ord nat_ord
    binary_search data_of entry_ord
connect = refl

disconnect :
    delete_block_txs toy_scripts (commit connected coin_db) 3 block_txid stored_num block spent_coin
    ≡ changed disconnected
unfolding delete_block_txs restore_inputs ◌==◌ nat_ord
disconnect = refl

insert_block_txs-entries_example :
    Holds
      (λ o.
        if mentions o
          (at_key (key_of 4) (block_inputs toy_scripts spent_coin block ((1 ∷ []) ∷ [])))
        then none
        else or_else
            (entry_at o stored_coin)
            (made o (at_key (key_of 4) (block_outputs toy_scripts 3 block))))
      (unwrap_or (commit connected coin_db (key_of 4)) [])
unfolding ◌==◌ list_ord nat_ord
insert_block_txs-entries_example =
    insert_block_txs-entries toy_scripts coin_db 3 spent_coin block ((1 ∷ []) ∷ []) connected
      (key_of 4) connect (tt, tt)

delete_block_txs-entries_example :
    Holds
      (λ o.
        if made_in o (at_key (key_of 4) (block_outputs toy_scripts 3 block))
        then none
        else or_else (entry_at o (unwrap_or (commit connected coin_db (key_of 4)) [])) (
            made o (
              at_key (key_of 4) (
                block_restored toy_scripts
                  (commit connected coin_db)
                  3
                  block_txid
                  stored_num
                  block
                  spent_coin))))
      (unwrap_or (commit disconnected (commit connected coin_db) (key_of 4)) [])
unfolding commit
delete_block_txs-entries_example =
    delete_block_txs-entries toy_scripts (commit connected coin_db) 3 block_txid stored_num block
      spent_coin disconnected (key_of 4) disconnect insert_block_txs-entries_example.0

delete_block_txs-insert_block_txs_example :
    unwrap_or (commit disconnected (commit connected coin_db) (key_of 4)) [] ≡ stored_coin
unfolding ◌==◌ list_ord nat_ord chronik.InputTxNums.fetch_input_tx_nums block_inputs block_outputs
    script_payloads at_key made lookup into_vec prefix_byte data_of
delete_block_txs-insert_block_txs_example =
    delete_block_txs-insert_block_txs toy_scripts coin_db 3 block_txid stored_num block spent_coin
      ((1 ∷ []) ∷ []) connected disconnected (key_of 4) connect disconnect (tt, tt) refl
      (λ o d m n. m)
