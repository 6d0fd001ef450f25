-- ===== src/Tests/Merges.antt =====
-- A merge of ordered entries, and a block with one spend.
use chronik.Prelude.{ℕ, refl, ◌≡◌, Option, none, some, List, [], ◌∷◌, true, false, ◌||◌}
use chronik.Std.Ord.{◌==◌, nat_ord, pair_ord}
use chronik.Std.BTreeSet.{contains}
use chronik.Std.HashMap.{is_some}
use chronik.Std.SortedVec.{IsSorted, binary_search}
use chronik.Chain.{Bytes, UnhashedTx}
use chronik.MergeOps.{operands_at, merge_operand, merge_operands, full_merge_ordered_list}
use chronik.MergeOps.Laws.{AllMerged, full_merge-total, full_merge-AllMerged}
use chronik.Spends.{
  SpendData, spend_ord, block_spends, update_block_txs, insert_block_txs, delete_block_txs,
}
use chronik.Spends.Laws.{insert_block_txs-spends, delete_block_txs-insert}
use chronik.Tests.Fixture.{parent}

abbrev toy_bytes : SpendData → Bytes
toy_bytes s = s.out_idx ∷ s.tx_num ∷ s.input_idx ∷ []

abbrev toy_read : Bytes → Option SpendData
toy_read (a ∷ b ∷ c ∷ []) = some (record { out_idx = a; tx_num = b; input_idx = c })
toy_read bytes = none

abbrev spend_at : ℕ → SpendData
spend_at n = record { out_idx = n; tx_num = 8; input_idx = 0 }

full_merge-total_example :
    is_some (full_merge_ordered_list toy_read none ((73 ∷ toy_bytes (spend_at 1)) ∷ [])) ≡ true
full_merge-total_example = full_merge-total toy_read none ((73 ∷ toy_bytes (spend_at 1)) ∷ [])

-- Insert 1, delete 2, insert 2 again.
abbrev three : List Bytes
three =
    (73 ∷ toy_bytes (spend_at 1))
    ∷ (68 ∷ toy_bytes (spend_at 2))
    ∷ (73 ∷ toy_bytes (spend_at 2))
    ∷ []

merge_three :
    full_merge_ordered_list toy_read (some (spend_at 2 ∷ [])) three
    ≡ some (spend_at 1 ∷ spend_at 2 ∷ [])
unfolding full_merge_ordered_list merge_operands merge_operand binary_search spend_ord pair_ord
    nat_ord
merge_three = refl

full_merge-AllMerged_example :
    AllMerged toy_read three (spend_at 2 ∷ []) (spend_at 1 ∷ spend_at 2 ∷ [])
full_merge-AllMerged_example =
    full_merge-AllMerged toy_read (some (spend_at 2 ∷ [])) three (spend_at 1 ∷ spend_at 2 ∷ [])
      (tt, tt) merge_three

-- The block has a coinbase transaction and one that spends output 0 of transaction 3.
abbrev block : List UnhashedTx
block = parent ∷ parent ∷ []

abbrev numbers : List (List ℕ)
numbers = (3 ∷ []) ∷ []

abbrev spend : SpendData
spend = record { out_idx = 0; tx_num = 8; input_idx = 0 }

merge_block :
    full_merge_ordered_list toy_read none
      (operands_at 3 (insert_block_txs toy_bytes 7 block numbers))
    ≡ some (spend ∷ [])
unfolding full_merge_ordered_list merge_operands merge_operand binary_search spend_ord pair_ord
    nat_ord ◌==◌ insert_block_txs update_block_txs block_spends
merge_block = refl

unmerge_block :
    full_merge_ordered_list toy_read
      (some (spend ∷ []))
      (operands_at 3 (delete_block_txs toy_bytes 7 block numbers))
    ≡ some []
unfolding full_merge_ordered_list merge_operands merge_operand binary_search spend_ord pair_ord
    nat_ord ◌==◌ delete_block_txs update_block_txs block_spends
unmerge_block = refl

insert_block_txs-spends_example :
    IsSorted (spend ∷ [])
    × ((e : SpendData) → contains e (spend ∷ []) ≡ ((e == spend || false) || false))
unfolding block_spends ◌==◌ nat_ord contains
insert_block_txs-spends_example =
    insert_block_txs-spends toy_bytes toy_read (λ s. refl) 7 block numbers 3 none (spend ∷ []) [] tt
      merge_block

delete_block_txs-insert_example : contains spend [] ≡ false
unfolding block_spends ◌==◌ nat_ord contains spend_ord pair_ord
delete_block_txs-insert_example =
    delete_block_txs-insert toy_bytes toy_read (λ s. refl) 7 block numbers 3 none (spend ∷ []) [] tt
      merge_block unmerge_block spend
