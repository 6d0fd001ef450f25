-- ===== src/Spends.antt =====
-- chronik-rocksdb/src/spends.rs: for each transaction in the database, which of its outputs are
-- spent, and by which inputs.
pub mod Laws
use chronik.Prelude.{ℕ, ◌+◌, ◌≡◌, List, [], ◌∷◌, ◌++◌, map, enumerate, zip, if◌then◌else◌}
use chronik.Std.Ord.{Ord, ◌==◌, nat_ord, pair_ord, cmp_fields, cmp_fields-Laws}
use chronik.Chain.{Bytes, TxInput, UnhashedTx}
use chronik.Std.HashMap.{HashMap, unwrap_or}
use chronik.Slp.{TxNum}
use chronik.MergeOps.{prefix_insert, prefix_delete}

pub record SpendData : Type 0 where
  pub out_idx : ℕ
  pub tx_num : TxNum
  pub input_idx : ℕ

abbrev pub spend_fields : SpendData → ℕ × (TxNum × ℕ)
spend_fields s = (s.out_idx, (s.tx_num, s.input_idx))

pub spend_fields_injective : (x y : SpendData) → spend_fields x ≡ spend_fields y → x ≡ y
spend_fields_injective x y h =
    λ i. record { out_idx = (h i).0; tx_num = (h i).1.0; input_idx = (h i).1.1 }

-- `impl Ord for SpendData`
instance unfoldable pub spend_ord : Ord SpendData
unfolding pair_ord nat_ord
spend_ord = record {
  cmp = cmp_fields spend_fields;
  laws = cmp_fields-Laws spend_fields spend_fields_injective;
}

-- The spends of one transaction, each with the number of the transaction that it spends from.
abbrev pub tx_spends : TxNum → List (ℕ × (TxInput × TxNum)) → List (TxNum × SpendData)
tx_spends tx_num [] = []
tx_spends tx_num ((input_idx, (input, input_tx_num)) ∷ inputs) =
    (
      input_tx_num,
      record { out_idx = input.prev_out.out_idx; tx_num = tx_num; input_idx = input_idx },
    )
    ∷ tx_spends tx_num inputs

abbrev pub txs_spends : TxNum → List ((ℕ × UnhashedTx) × List TxNum) → List (TxNum × SpendData)
txs_spends first_tx_num [] = []
txs_spends first_tx_num (((tx_idx, tx), tx_input_nums) ∷ txs) =
    tx_spends (first_tx_num + tx_idx) (enumerate 0 (zip tx.inputs tx_input_nums))
    ++ txs_spends first_tx_num txs

-- `txs.iter().enumerate().skip(1).zip(input_tx_nums)`: the coinbase transaction spends nothing.
unfoldable pub block_spends : TxNum → List UnhashedTx → List (List TxNum) → List (TxNum × SpendData)
block_spends first_tx_num [] input_tx_nums = []
block_spends first_tx_num (coinbase ∷ txs) input_tx_nums =
    txs_spends first_tx_num (zip (enumerate 1 txs) input_tx_nums)

-- `as_bytes` gives the bytes of an entry. A batch is its merges: a key and an operand each.
module _ (as_bytes : SpendData → Bytes) where
  unfoldable pub update_block_txs :
      TxNum → List UnhashedTx → List (List TxNum) → ℕ → List (TxNum × Bytes)
  unfolding block_spends
  update_block_txs first_tx_num txs input_tx_nums prefix =
      map (λ s. (s.0, prefix ∷ as_bytes s.1)) (block_spends first_tx_num txs input_tx_nums)

  unfoldable pub insert_block_txs :
      TxNum → List UnhashedTx → List (List TxNum) → List (TxNum × Bytes)
  unfolding update_block_txs
  insert_block_txs first_tx_num txs input_tx_nums =
      update_block_txs first_tx_num txs input_tx_nums prefix_insert

  unfoldable pub delete_block_txs :
      TxNum → List UnhashedTx → List (List TxNum) → List (TxNum × Bytes)
  unfolding update_block_txs
  delete_block_txs first_tx_num txs input_tx_nums =
      update_block_txs first_tx_num txs input_tx_nums prefix_delete

-- `SpendsReader::spends_by_tx_num`
abbrev pub spends_by_tx_num : HashMap TxNum (List SpendData) → TxNum → List SpendData
spends_by_tx_num spends tx_num = unwrap_or (spends tx_num) []
