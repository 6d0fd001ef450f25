-- ===== src/Tests/Chain.antt =====
-- Blocks and their transactions in columns that are lists, and an index in which all hashes collide.
use chronik.Prelude.{
  ℕ, ◌≡◌, refl, pos, true, Option, none, some, List, [], ◌∷◌, arith, if◌then◌else◌,
}
use chronik.Std.Ord.{◌==◌, nat_ord}
use chronik.Std.BTreeSet.{contains}
use chronik.Std.HashMap.{HashMap, empty}
use chronik.Std.Keyed.{or_else}
use chronik.Std.SortedVec.{binary_search}
use chronik.Chain.{Bytes}
use chronik.MergeOps.{merge_operand, merge_operands, full_merge_ordered_list}
use chronik.Column.{write_all, find}
use chronik.Index
use chronik.Index.Merges.{Kept, insert-Kept}
use chronik.Txs.{
  TxEntry, TxData, TxBatch, BlockTxs, TxColumns, tx_data_of, tx_indexable, ok, insert_block_txs,
  delete_block_txs, after_batch,
}
use chronik.Txs.Laws.{delete-insert_block_txs, inserted}
use chronik.Txs.{tx_and_num_by_txid}
use chronik.Txs.ByTxid.{tx_and_num_by_txid-insert_block_txs}
use chronik.Blocks.{Block}
use chronik.Tests.ListColumn.{list_column, no_items}

abbrev colliding : Index.Indexable TxData
colliding = tx_indexable (λ txid. 0) (λ n. n ∷ [])

abbrev read_number : Bytes → Option ℕ
read_number [] = none
read_number (b ∷ bytes) = some b

abbrev pub tx_entry : ℕ → TxEntry
tx_entry txid = record {
  txid = txid;
  data_pos = 100;
  tx_size = 10;
  undo_pos = 0;
  undo_size = 0;
  time_first_seen = pos 5;
  is_coinbase = true;
}

abbrev one_item : List (ℕ × TxData)
one_item = (3, tx_data_of (tx_entry 7)) ∷ []

abbrev one_listed : HashMap ℕ (List ℕ)
one_listed h = if h == 0 then some (3 ∷ []) else none

insert-Kept_example :
    Kept colliding read_number (λ n. refl) (λ j. or_else (find j one_item) none) one_listed
unfolding ◌==◌ nat_ord contains full_merge_ordered_list merge_operands merge_operand binary_search
insert-Kept_example =
    insert-Kept colliding read_number (λ n. refl) (λ j. none) empty one_listed one_item (tt, tt)
      ((λ h e. refl), λ h. tt) (λ j v e. refl) (λ h. ground arith)

abbrev no_txs : TxColumns (list_column TxData) (list_column ℕ) colliding
no_txs = record {
  txs = no_items TxData;
  block_by_first_tx = no_items ℕ;
  first_tx_by_block = no_items ℕ;
  tx_index_by_txid = empty;
}

abbrev pub two_txs : BlockTxs
two_txs = record { txs = tx_entry 7 ∷ tx_entry 8 ∷ []; block_height = 0 }

abbrev pub genesis_block : Block
genesis_block = record {
  hash = 50;
  prev_hash = 0;
  height = 0;
  n_bits = 1;
  timestamp = pos 9;
  file_num = 0;
  data_pos = 8;
}

abbrev both_listed : HashMap ℕ (List ℕ)
both_listed h = if h == 0 then some (0 ∷ 1 ∷ []) else none

abbrev two_inserted : TxColumns (list_column TxData) (list_column ℕ) colliding
two_inserted = inserted (list_column TxData) (list_column ℕ) colliding no_txs two_txs both_listed

delete-insert_block_txs_example :
    (batch : TxBatch) × (delete_block_txs
        (list_column TxData)
        (list_column ℕ)
        colliding
        two_inserted
        0
      ≡ ok batch)
    × ((other : HashMap ℕ (List ℕ)) (j : ℕ)
        → ((list_column TxData).get
              (after_batch
                (list_column TxData)
                (list_column ℕ)
                colliding
                batch
                other
                two_inserted).txs
              j
            ≡ none)
          × ((list_column ℕ).get
                (after_batch
                  (list_column TxData)
                  (list_column ℕ)
                  colliding
                  batch
                  other
                  two_inserted).block_by_first_tx
                j
              ≡ none)
          × ((list_column ℕ).get
                (after_batch
                  (list_column TxData)
                  (list_column ℕ)
                  colliding
                  batch
                  other
                  two_inserted).first_tx_by_block
                j
              ≡ none))
delete-insert_block_txs_example =
    delete-insert_block_txs (list_column TxData) (list_column ℕ) colliding no_txs two_txs
      both_listed refl refl refl

tx_and_num_by_txid-insert_block_txs_example :
    tx_and_num_by_txid (list_column TxData) (list_column ℕ) colliding two_inserted 8
    ≡ ok (some (1, record { entry = tx_entry 8; block_height = 0 }))
unfolding ◌==◌ nat_ord full_merge_ordered_list merge_operands merge_operand binary_search contains
    insert_block_txs after_batch write_all
tx_and_num_by_txid-insert_block_txs_example =
    tx_and_num_by_txid-insert_block_txs (list_column TxData) (list_column ℕ) (λ txid. 0)
      (λ n. n ∷ []) read_number (λ n. refl) no_txs two_txs both_listed 1 (tx_entry 8)
      ((λ h e. refl), λ h. tt) (λ h. ground arith) (λ k h. refl) refl
      (λ j d e h. ground (arith, e, h))
