-- ===== src/Tests/Transients.antt =====
-- A block of a transaction with a known time and one without, in empty columns.
use chronik.Prelude.{ℕ, ◌≡◌, refl, subst, pos, none, List, [], ◌∷◌, arith}
use chronik.Std.Ord.{nat_ord}
use chronik.Std.HashMap.{empty}
use chronik.Txs.{TxData, BlockTxs, TxColumns, tx_indexable}
use chronik.Txs.Laws.{inserted}
use chronik.TransientData.{TransientTxData, ok, block_tx_data, next_block_height}
use chronik.TransientData.Laws.{kept}
use chronik.TransientData.Update.{AreRemembered, block_tx_data-kept, times_first_seen-update_block}
use chronik.TransientData.CatchUp.{IsCaughtUp, update_transient_data-IsCaughtUp}
use chronik.Tests.Chain.{tx_entry}
use chronik.Tests.ListColumn.{list_column, no_items}

abbrev no_columns :
    TxColumns (list_column TxData) (list_column ℕ) (tx_indexable (λ txid. txid) (λ n. n ∷ []))
no_columns = record {
  txs = no_items TxData;
  block_by_first_tx = no_items ℕ;
  first_tx_by_block = no_items ℕ;
  tx_index_by_txid = empty;
}

abbrev first_block : BlockTxs
first_block = record {
  txs = record (tx_entry 6) { time_first_seen = pos 0 } ∷ tx_entry 7 ∷ [];
  block_height = 0;
}

times_first_seen-update_block_example :
    AreRemembered
      (λ txid. txid)
      (list_column TxData)
      (list_column ℕ)
      (tx_indexable (λ txid. txid) (λ n. n ∷ []))
      no_columns
      first_block
      empty
      (list_column (List TransientTxData))
      (no_items (List TransientTxData))
      (λ txid. none)
times_first_seen-update_block_example =
    times_first_seen-update_block (λ txid. txid) (list_column TxData) (list_column ℕ)
      (tx_indexable (λ txid. txid) (λ n. n ∷ [])) no_columns first_block empty
      (list_column (List TransientTxData)) (no_items (List TransientTxData)) (λ txid. none)
      (omega arith) refl (λ k h. refl) (((λ e. ground (arith, e)), tt), (tt, tt)) (refl, (refl, tt))

abbrev one_block :
    TxColumns (list_column TxData) (list_column ℕ) (tx_indexable (λ txid. txid) (λ n. n ∷ []))
one_block =
    inserted (list_column TxData) (list_column ℕ) (tx_indexable (λ txid. txid) (λ n. n ∷ []))
      no_columns first_block empty

update_transient_data-IsCaughtUp_example :
    IsCaughtUp
      (λ txid. txid)
      (list_column TxData)
      (list_column ℕ)
      (tx_indexable (λ txid. txid) (λ n. n ∷ []))
      one_block
      (list_column (List TransientTxData))
      (λ h. kept (λ txid. txid) first_block.txs)
      0
      (no_items (List TransientTxData))
unfolding next_block_height
update_transient_data-IsCaughtUp_example =
    update_transient_data-IsCaughtUp (λ txid. txid) (list_column TxData) (list_column ℕ)
      (tx_indexable (λ txid. txid) (λ n. n ∷ [])) one_block (list_column (List TransientTxData))
      (λ h. kept (λ txid. txid) first_block.txs) 0 (no_items (List TransientTxData)) (omega arith)
      (omega arith)
      (λ h from below.
        let only : 0 ≡ h = omega (arith, below) in
        subst
          (λ k.
            block_tx_data (λ txid. txid) (list_column TxData) (list_column ℕ)
              (tx_indexable (λ txid. txid) (λ n. n ∷ [])) one_block k
            ≡ ok (kept (λ txid. txid) first_block.txs))
          only
          (block_tx_data-kept (λ txid. txid) (list_column TxData) (list_column ℕ)
            (tx_indexable (λ txid. txid) (λ n. n ∷ [])) no_columns first_block empty (omega arith)
            refl (λ k h. refl)))
