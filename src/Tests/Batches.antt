-- ===== src/Tests/Batches.antt =====
-- A parent and a child in one batch, the child first; and a transaction that waits for itself.
use chronik.Prelude.{refl, ◌≡◌, ◌≢◌, none, [], ◌∷◌, List, true, All, ◌+ℤ◌, ◌-ℤ◌}
use chronik.Std.Ord.{◌==◌, nat_ord, list_ord, int_ord, pair_ord}
use chronik.Std.BTreeSet
use chronik.Std.Shuffle.{Shuffle, same}
use chronik.Chain.{Sha256d, outpoint_ord}
use chronik.ScriptPayload.{prefix_byte, into_vec, script_payloads, payload_keys}
use chronik.MempoolData.{MempoolTxEntry, for_each, tx}
use chronik.MempoolData.Insert
use chronik.MempoolData.Delete
use chronik.MempoolSlpData
use chronik.Slp.{is_ignored_error}
use chronik.Rounds.{Ended, finished, cycle, error, out_of_fuel, pass, rounds}
use chronik.Mempool.{
  MempoolWriter, MempoolError, BatchTx, insert_mempool_tx, delete_mempool_tx, visit_insert,
  visit_known, visit_delete, insert_mempool_batch_txs, delete_mempool_mined_txs, has_parent,
  in_batch,
}
use chronik.Mempool.Batch.{
  Inserts, insert_batch-terminates, insert_batch-parents_first, insert_batch-cycle,
}
use chronik.Mempool.Mined.{Deletes, delete_mined-parents_first}
use chronik.Mempool.Contents.{holds, insert_batch-holds, delete_mined-txs}
use chronik.Tests.Fixture.{toy_scripts, plain_slp, empty_db, no_slp, no_data, bare_entry, spend_of}

abbrev idle : MempoolWriter
idle = record { mempool = no_data; mempool_slp = no_slp }

abbrev writer_of : {X : Type 0} → Ended X MempoolError MempoolWriter → MempoolWriter
writer_of (finished w) = w
writer_of (cycle left w) = w
writer_of (error e w) = w
writer_of out_of_fuel = idle

abbrev parent_entry : MempoolTxEntry
parent_entry = bare_entry []

abbrev child_entry : MempoolTxEntry
child_entry = bare_entry (spend_of 20 1 ∷ [])

abbrev batch : List BatchTx
batch = (21, child_entry) ∷ (20, parent_entry) ∷ []

abbrev ids : List Sha256d
ids = 21 ∷ 20 ∷ []

abbrev filled : MempoolWriter
filled = writer_of (insert_mempool_batch_txs toy_scripts plain_slp empty_db (λ xs. xs) batch idle)

fill :
    insert_mempool_batch_txs toy_scripts plain_slp empty_db (λ xs. xs) batch idle ≡ finished filled
unfolding insert_mempool_batch_txs visit_insert insert_mempool_tx rounds pass
    Insert.insert_output_key Insert.spend_delta Insert.insert_input_key Insert.insert_spend
    Insert.insert_entry Insert.insert_output Insert.insert_input Insert.insert_mempool_tx for_each
    prefix_byte into_vec script_payloads payload_keys BTreeSet.contains BTreeSet.insert
    BTreeSet.remove ◌==◌ nat_ord list_ord int_ord pair_ord outpoint_ord ◌+ℤ◌
    MempoolSlpData.update_token MempoolSlpData.burn MempoolSlpData.mint_token
    MempoolSlpData.burn_inputs MempoolSlpData.mint_outputs MempoolSlpData.update_token_stats
    MempoolSlpData.collect_spent_output MempoolSlpData.collect_inputs
    MempoolSlpData.collect_spent_outputs MempoolSlpData.insert_checked
    MempoolSlpData.insert_mempool_tx is_ignored_error
fill = refl

insert_batch-terminates_example :
    insert_mempool_batch_txs toy_scripts plain_slp empty_db (λ xs. xs) batch idle ≢ out_of_fuel
insert_batch-terminates_example =
    insert_batch-terminates toy_scripts plain_slp empty_db (λ xs. xs) same batch idle

insert_batch-parents_first_example :
    (seq : List BatchTx) × Shuffle seq batch
    × Inserts toy_scripts plain_slp empty_db seq idle filled
insert_batch-parents_first_example =
    insert_batch-parents_first toy_scripts plain_slp empty_db (λ xs. xs) same batch idle fill

insert_batch-holds_example : holds filled 20 ≡ true
unfolding ◌==◌ nat_ord
insert_batch-holds_example =
    insert_batch-holds toy_scripts plain_slp empty_db (λ xs. xs) same batch idle filled fill 20

-- The child alone waits for itself, under the id of its parent.
abbrev loop_batch : List BatchTx
loop_batch = (20, child_entry) ∷ []

find_cycle :
    insert_mempool_batch_txs toy_scripts plain_slp empty_db (λ xs. xs) loop_batch idle
    ≡ cycle loop_batch idle
unfolding insert_mempool_batch_txs visit_insert rounds pass ◌==◌ nat_ord
find_cycle = refl

insert_batch-cycle_example : All (λ item. has_parent (in_batch loop_batch) item.1 ≡ true) loop_batch
insert_batch-cycle_example =
    insert_batch-cycle toy_scripts plain_slp empty_db (λ xs. xs) same loop_batch idle find_cycle

abbrev emptied : MempoolWriter
emptied = writer_of (delete_mempool_mined_txs toy_scripts empty_db (λ xs. xs) ids filled)

empty_again : delete_mempool_mined_txs toy_scripts empty_db (λ xs. xs) ids filled ≡ finished emptied
unfolding delete_mempool_mined_txs visit_delete visit_known delete_mempool_tx rounds pass
    insert_mempool_batch_txs visit_insert insert_mempool_tx tx Delete.unspend_delta
    Delete.delete_input_key Delete.remove_spend Delete.delete_spend Delete.delete_output_key
    Delete.delete_input Delete.delete_output Delete.delete_entry Delete.delete_mempool_tx
    Insert.insert_output_key Insert.spend_delta Insert.insert_input_key Insert.insert_spend
    Insert.insert_entry Insert.insert_output Insert.insert_input Insert.insert_mempool_tx for_each
    prefix_byte into_vec script_payloads payload_keys BTreeSet.contains BTreeSet.insert
    BTreeSet.remove ◌==◌ nat_ord list_ord int_ord pair_ord outpoint_ord ◌+ℤ◌ ◌-ℤ◌
    MempoolSlpData.update_token MempoolSlpData.burn MempoolSlpData.mint_token
    MempoolSlpData.burn_inputs MempoolSlpData.mint_outputs MempoolSlpData.update_token_stats
    MempoolSlpData.collect_spent_output MempoolSlpData.collect_inputs
    MempoolSlpData.collect_spent_outputs MempoolSlpData.insert_checked
    MempoolSlpData.insert_mempool_tx MempoolSlpData.delete_checked MempoolSlpData.delete_mempool_tx
    is_ignored_error
empty_again = refl

delete_mined-parents_first_example :
    (seq : List Sha256d) × Shuffle seq ids × Deletes toy_scripts empty_db seq filled emptied
delete_mined-parents_first_example =
    delete_mined-parents_first toy_scripts empty_db (λ xs. xs) same ids filled empty_again

delete_mined-txs_example : emptied.mempool.txs 20 ≡ none
unfolding ◌==◌ nat_ord
delete_mined-txs_example =
    delete_mined-txs toy_scripts empty_db (λ xs. xs) same ids filled emptied empty_again 20
