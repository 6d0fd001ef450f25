-- ===== src/Tests/Mempool.antt =====
-- One transaction, inserted and deleted.
use chronik.Prelude.{ℕ, pos, refl, ◌≡◌, some, [], ◌∷◌, List, true, false, not, ◌||◌}
use chronik.Std.Ord.{◌==◌, nat_ord, list_ord, int_ord, pair_ord}
use chronik.Std.BTreeSet
use chronik.Chain.{OutPoint, outpoint_ord}
use chronik.ScriptPayload.{prefix_byte, into_vec, script_payloads, payload_keys}
use chronik.MempoolData.{MempoolData, MempoolDeleteMode, for_each, ok}
use chronik.MempoolData.Insert.{
  insert_output_key, spend_delta, insert_input_key, insert_spend, insert_entry, insert_output,
  insert_input, insert_mempool_tx,
}
use chronik.MempoolData.Delete.{
  unspend_delta, delete_input_key, remove_spend, delete_spend, delete_output_key, delete_input,
  delete_output, delete_entry, delete_mempool_tx,
}
use chronik.MempoolData.View.{in_history, inserted, deleted, is_spent_by}
use chronik.MempoolData.RoundTrip.{IsFresh, delete-insert}
use chronik.MempoolData.InsertLaws.{insert_mempool_tx-keys}
use chronik.MempoolData.DeleteLaws.{delete_mempool_tx-keys}
use chronik.Tests.Fixture.{toy_scripts, parent, coin_of, no_data, after, parent_entry}

abbrev with_parent : MempoolData
with_parent = after (insert_mempool_tx toy_scripts 20 parent (coin_of 4 ∷ []) (pos 100) no_data)

insert_parent :
    insert_mempool_tx toy_scripts 20 parent (coin_of 4 ∷ []) (pos 100) no_data ≡ ok tt with_parent
unfolding insert_output_key spend_delta insert_input_key insert_spend insert_entry insert_output
    insert_input insert_mempool_tx for_each prefix_byte into_vec script_payloads payload_keys
    BTreeSet.contains BTreeSet.insert ◌==◌ nat_ord list_ord int_ord pair_ord outpoint_ord
insert_parent = refl

abbrev without_parent : MempoolDeleteMode → MempoolData
without_parent mode = after (delete_mempool_tx toy_scripts 20 mode with_parent)

delete_parent :
    delete_mempool_tx toy_scripts 20 MempoolDeleteMode.remove with_parent
    ≡ ok parent (without_parent MempoolDeleteMode.remove)
unfolding insert_output_key spend_delta insert_input_key insert_spend insert_entry insert_output
    insert_input insert_mempool_tx unspend_delta delete_input_key remove_spend delete_spend
    delete_output_key delete_input delete_output delete_entry delete_mempool_tx for_each prefix_byte
    into_vec script_payloads payload_keys BTreeSet.contains BTreeSet.insert BTreeSet.remove ◌==◌
    nat_ord list_ord int_ord pair_ord outpoint_ord
delete_parent = refl

mine_parent :
    delete_mempool_tx toy_scripts 20 MempoolDeleteMode.mined with_parent
    ≡ ok parent (without_parent MempoolDeleteMode.mined)
unfolding insert_output_key spend_delta insert_input_key insert_spend insert_entry insert_output
    insert_input insert_mempool_tx unspend_delta delete_input_key remove_spend delete_spend
    delete_output_key delete_input delete_output delete_entry delete_mempool_tx for_each prefix_byte
    into_vec script_payloads payload_keys BTreeSet.contains BTreeSet.insert BTreeSet.remove ◌==◌
    nat_ord list_ord int_ord pair_ord outpoint_ord
mine_parent = refl

has_parent : with_parent.txs 20 ≡ some parent_entry
unfolding insert_output_key spend_delta insert_input_key insert_spend insert_entry insert_output
    insert_input insert_mempool_tx for_each prefix_byte into_vec script_payloads payload_keys
    BTreeSet.contains BTreeSet.insert ◌==◌ nat_ord list_ord int_ord pair_ord outpoint_ord
has_parent = refl

no_data-IsFresh : IsFresh toy_scripts 20 parent (coin_of 4 ∷ []) (pos 100) no_data
unfolding in_history inserted deleted is_spent_by BTreeSet.contains
no_data-IsFresh = record {
  no_entry = refl;
  no_history = λ q. refl;
  no_output = λ q n. refl;
  no_spend = λ t n idx. refl;
  unspent = λ q o h. refl;
  distinct = (refl, tt);
  holds_sets = record { history = λ q. refl; delta = λ q. refl; spends = λ t. refl };
}

delete-insert_example : without_parent MempoolDeleteMode.remove ≡ no_data
delete-insert_example =
    delete-insert toy_scripts 20 parent (coin_of 4 ∷ []) (pos 100) no_data with_parent
      (without_parent MempoolDeleteMode.remove) parent no_data-IsFresh insert_parent delete_parent

-- The spent coin of 4.
abbrev key_of : ℕ → List ℕ
key_of address = 3 ∷ address ∷ []

abbrev spent_coin : OutPoint
spent_coin = record { txid = 7; out_idx = 0 }

insert_mempool_tx-keys_example :
    (in_history with_parent (key_of 4) (pos 100, 20) ≡ true)
    × (inserted with_parent (key_of 4) spent_coin ≡ false)
    × (deleted with_parent (key_of 4) spent_coin ≡ true)
unfolding ◌==◌ nat_ord list_ord int_ord pair_ord outpoint_ord BTreeSet.contains prefix_byte into_vec
    script_payloads payload_keys in_history inserted deleted
insert_mempool_tx-keys_example =
    insert_mempool_tx-keys toy_scripts 20 parent (coin_of 4 ∷ []) (pos 100) no_data with_parent
      insert_parent (refl, tt) (key_of 4) (pos 100, 20) spent_coin

delete_mempool_tx-keys_example :
    (in_history (without_parent MempoolDeleteMode.mined) (key_of 4) (pos 100, 20) ≡ false)
    × (inserted (without_parent MempoolDeleteMode.mined) (key_of 4) spent_coin ≡ (
        inserted with_parent (key_of 4) spent_coin
        || not (deleted with_parent (key_of 4) spent_coin)))
    × (deleted (without_parent MempoolDeleteMode.mined) (key_of 4) spent_coin ≡ false)
unfolding ◌==◌ nat_ord list_ord int_ord pair_ord outpoint_ord BTreeSet.contains prefix_byte into_vec
    script_payloads payload_keys
delete_mempool_tx-keys_example =
    delete_mempool_tx-keys toy_scripts MempoolDeleteMode.mined 20 parent_entry parent with_parent
      (without_parent MempoolDeleteMode.mined) has_parent mine_parent (refl, tt) (key_of 4)
      (pos 100, 20) spent_coin
