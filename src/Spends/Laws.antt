-- ===== src/Spends/Laws.antt =====
-- What the blocks that are connected and disconnected leave among the spends of a transaction.
use chronik.Prelude.{
  ℕ, nat_eq, ◌≡◌, refl, ◌∙◌, Bool, true, false, not, ◌&&◌, ◌||◌, Option, some, List, [], ◌∷◌, map,
  any, arith,
}
use chronik.Std.Ord.{◌==◌, nat_ord}
use chronik.Std.BTreeSet.{contains}
use chronik.Std.HashMap.{unwrap_or, is_some}
use chronik.Std.SortedVec.{IsSorted}
use chronik.Chain.{Bytes, UnhashedTx}
use chronik.Slp.{TxNum}
use chronik.MergeOps.{operands_at, prefix_insert, prefix_delete, full_merge_ordered_list}
use chronik.MergeOps.Laws.{held_after, full_merge-AllMerged, full_merge-total, all_well_formed}
use chronik.Spends.{
  SpendData, spend_ord, block_spends, update_block_txs, insert_block_txs, delete_block_txs,
}

-- The block has this spend, of an output of the transaction `key`.
abbrev pub is_spend_of : TxNum → SpendData → TxNum × SpendData → Bool
is_spend_of key e s = key == s.0 && e == s.1

module _ (as_bytes : SpendData → Bytes) (interpret : Bytes → Option SpendData)
    (reads : (s : SpendData) → interpret (as_bytes s) ≡ some s) (key : TxNum) (e : SpendData) where
  held-insert :
      (spends : List (TxNum × SpendData)) (held : Bool)
      → held_after interpret e
          (operands_at key (map (λ s. (s.0, prefix_insert ∷ as_bytes s.1)) spends))
          held
        ≡ (any (is_spend_of key e) spends || held)
  held-insert [] held = refl
  held-insert ((k, s) ∷ spends) held =
      ground (arith, held-insert spends held, held-insert spends true, reads s)

  held-delete :
      (spends : List (TxNum × SpendData)) (held : Bool)
      → held_after interpret e
          (operands_at key (map (λ s. (s.0, prefix_delete ∷ as_bytes s.1)) spends))
          held
        ≡ (not (any (is_spend_of key e) spends) && held)
  held-delete [] held = refl
  held-delete ((k, s) ∷ spends) held =
      ground (arith, held-delete spends held, held-delete spends false, reads s)

module _ (as_bytes : SpendData → Bytes) (interpret : Bytes → Option SpendData)
    (reads : (s : SpendData) → interpret (as_bytes s) ≡ some s) (first_tx_num : TxNum)
    (txs : List UnhashedTx) (input_tx_nums : List (List TxNum)) (key : TxNum) where
  well_formed-operands :
      (prefix : ℕ) (spends : List (TxNum × SpendData))
      → (nat_eq prefix prefix_insert || nat_eq prefix prefix_delete) ≡ true
      → all_well_formed interpret (operands_at key (map (λ s. (s.0, prefix ∷ as_bytes s.1)) spends))
        ≡ true
  well_formed-operands prefix [] h = refl
  well_formed-operands prefix ((k, s) ∷ spends) h =
      ground (arith, well_formed-operands prefix spends h, reads s)

  -- If an entry's bytes are read as that entry, then the merges of a block that is connected, and of
  -- one that is disconnected, give a result and do not panic, whatever was stored before.
  pub merge_block-total :
      (existing_value : Option (List SpendData))
      → (is_some (
            full_merge_ordered_list interpret existing_value
              (operands_at key (insert_block_txs as_bytes first_tx_num txs input_tx_nums)))
          ≡ true)
        × (is_some (
              full_merge_ordered_list interpret existing_value
                (operands_at key (delete_block_txs as_bytes first_tx_num txs input_tx_nums)))
            ≡ true)
  unfolding insert_block_txs delete_block_txs update_block_txs
  merge_block-total existing_value =
      let spends = block_spends first_tx_num txs input_tx_nums in
      (
        full_merge-total interpret existing_value _
            ∙ well_formed-operands prefix_insert spends refl,
        full_merge-total interpret existing_value _
            ∙ well_formed-operands prefix_delete spends refl,
      )

module _ (as_bytes : SpendData → Bytes) (interpret : Bytes → Option SpendData)
    (reads : (s : SpendData) → interpret (as_bytes s) ≡ some s) (first_tx_num : TxNum)
    (txs : List UnhashedTx) (input_tx_nums : List (List TxNum)) (key : TxNum)
    (existing_value : Option (List SpendData)) (after_insert after_delete : List SpendData)
    (sorted : IsSorted (unwrap_or existing_value [])) where
  -- If an entry's bytes are read as that entry, and the spends of a transaction are in ascending
  -- order, then after the merges of a connected block they are so still, and they have gained exactly
  -- the spends of the block that have this transaction's number.
  pub insert_block_txs-spends :
      full_merge_ordered_list interpret existing_value
          (operands_at key (insert_block_txs as_bytes first_tx_num txs input_tx_nums))
        ≡ some after_insert
      → IsSorted after_insert
        × ((e : SpendData)
            → contains e after_insert ≡ (
                any (is_spend_of key e) (block_spends first_tx_num txs input_tx_nums)
                || contains e (unwrap_or existing_value [])))
  unfolding insert_block_txs update_block_txs
  insert_block_txs-spends h =
      let m = full_merge-AllMerged interpret existing_value _ after_insert sorted h in
      (
        m.sorted,
        λ e.
            m.holds e
            ∙ held-insert as_bytes interpret reads key e
                (block_spends first_tx_num txs input_tx_nums)
                (contains e (unwrap_or existing_value [])),
      )

  -- If an entry's bytes are read as that entry, and the spends of a transaction are in ascending
  -- order, then the merges of a connected block and of the same block disconnected leave exactly
  -- those of the spends that are not in the block.
  pub delete_block_txs-insert :
      full_merge_ordered_list interpret existing_value
          (operands_at key (insert_block_txs as_bytes first_tx_num txs input_tx_nums))
        ≡ some after_insert
      → full_merge_ordered_list interpret
          (some after_insert)
          (operands_at key (delete_block_txs as_bytes first_tx_num txs input_tx_nums))
        ≡ some after_delete
      → (e : SpendData)
      → contains e after_delete ≡ (
          not (any (is_spend_of key e) (block_spends first_tx_num txs input_tx_nums))
          && contains e (unwrap_or existing_value []))
  unfolding delete_block_txs update_block_txs
  delete_block_txs-insert h k e =
      let (sorted', held) = insert_block_txs-spends h in
      let m = full_merge-AllMerged interpret (some after_insert) _ after_delete sorted' k in
      ground (
        arith,
        m.holds e,
        held e,
        held-delete as_bytes interpret reads key e (block_spends first_tx_num txs input_tx_nums)
            (contains e after_insert),
      )
