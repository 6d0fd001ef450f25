-- ===== src/ScriptTxs.antt =====
-- chronik-rocksdb/src/script_txs.rs: the transactions of each script, in pages of a fixed size.
pub mod Laws
use chronik.Prelude.{
  ℕ, ◌+◌, ◌-◌, ◌/◌, ◌%◌, ◌^◌, ◌*◌, take, drop, Bool, Option, none, some, List, [], ◌∷◌, ◌++◌, map,
  length, enumerate, concat_map, nat_eq, if◌then◌else◌,
}
use chronik.Std.Ord.{◌==◌, nat_ord, list_ord}
use chronik.Std.BTreeSet
use chronik.Std.BTreeSet.{is_empty}
use chronik.Std.HashMap
use chronik.Std.HashMap.{HashMap, unwrap_or}
use chronik.Chain.{Bytes, TxInput, TxOutput, UnhashedTx}
use chronik.ScriptPayload.{ScriptLib, payload_keys}
use chronik.Slp.{TxNum}
use chronik.MergeOps.{prefix_insert, prefix_delete}

-- `page_num.to_be_bytes()`
abbrev pub be_bytes : ℕ → Bytes
be_bytes n = n / 2 ^ 24 % 256 ∷ n / 2 ^ 16 % 256 ∷ n / 2 ^ 8 % 256 ∷ n % 256 ∷ []

unfoldable pub key_for_script_payload : Bytes → ℕ → Bytes
key_for_script_payload script_payload page_num = script_payload ++ be_bytes page_num

-- `payload_tx_nums.entry(key).or_default().insert(tx_num)`, for each key.
unfoldable pub note_tx :
    TxNum → List Bytes → HashMap Bytes (List TxNum) → HashMap Bytes (List TxNum)
note_tx tx_num [] m = m
note_tx tx_num (key ∷ keys) m =
    note_tx tx_num keys (HashMap.insert key (BTreeSet.insert tx_num (unwrap_or (m key) [])) m)

module _ (lib : ScriptLib) (spent : ℕ → ℕ → TxOutput) where
  abbrev pub input_keys : ℕ → ℕ × TxInput → List Bytes
  input_keys tx_pos (input_idx, input) = payload_keys lib (spent tx_pos input_idx).script

  -- The keys of the scripts that a transaction pays to, and, but for the coinbase, spends from.
  abbrev pub tx_keys : ℕ × UnhashedTx → List Bytes
  tx_keys (tx_idx, tx) =
      concat_map (λ output. payload_keys lib output.script) tx.outputs
      ++ (if nat_eq tx_idx 0
          then []
          else concat_map (input_keys (tx_idx - 1)) (enumerate 0 tx.inputs))

  unfoldable pub note_txs :
      TxNum → List (ℕ × UnhashedTx) → HashMap Bytes (List TxNum) → HashMap Bytes (List TxNum)
  unfolding note_tx
  note_txs first_tx_num [] m = m
  note_txs first_tx_num (item ∷ items) m =
      note_txs first_tx_num items (note_tx (first_tx_num + item.0) (tx_keys item) m)

  unfoldable pub prepare_tx_nums_by_payload : TxNum → List UnhashedTx → HashMap Bytes (List TxNum)
  unfolding note_txs
  prepare_tx_nums_by_payload first_tx_num txs =
      note_txs first_tx_num (enumerate 0 txs) HashMap.empty

-- `as_bytes` gives the bytes of a number.
module _ (page_size : ℕ) (as_bytes : TxNum → Bytes) where
  abbrev pub page_merge : Bytes → ℕ → ℕ → ℕ × TxNum → Bytes × Bytes
  page_merge payload start prefix (new_tx_idx, tx_num) =
      (key_for_script_payload payload ((start + new_tx_idx) / page_size), prefix ∷ as_bytes tx_num)

  abbrev pub payload_merges : Bytes → ℕ → ℕ → List TxNum → List (Bytes × Bytes)
  payload_merges payload start prefix tx_nums =
      map (page_merge payload start prefix) (enumerate 0 tx_nums)

  -- The merges of `insert_block_txs`, where `entries` are the numbers by payload, in the order of the hash
  -- map, and `num_txs` the number of transactions that each payload has, which the method counts.
  unfoldable pub insert_merges : (Bytes → ℕ) → List (Bytes × List TxNum) → List (Bytes × Bytes)
  insert_merges num_txs [] = []
  insert_merges num_txs ((payload, tx_nums) ∷ entries) =
      payload_merges payload (num_txs payload) prefix_insert tx_nums
      ++ insert_merges num_txs entries

  -- The merges of `delete_block_txs`; the difference of 32-bit numbers wraps.
  unfoldable pub delete_merges : (Bytes → ℕ) → List (Bytes × List TxNum) → List (Bytes × Bytes)
  delete_merges num_txs [] = []
  delete_merges num_txs ((payload, tx_nums) ∷ entries) =
      payload_merges payload ((num_txs payload + 2 ^ 32 - length tx_nums) % 2 ^ 32) prefix_delete
        tx_nums
      ++ delete_merges num_txs entries

-- `ScriptTxsReader::page_txs`
abbrev pub page_txs : HashMap Bytes (List TxNum) → Bytes → ℕ → List TxNum
page_txs db script_payload page_num =
    unwrap_or (db (key_for_script_payload script_payload page_num)) []

-- `key[..key.len() - PAGE_NUM_SIZE]`, and the number in the bytes behind it.
abbrev pub payload_of : Bytes → Bytes
payload_of key = take (length key - 4) key

abbrev pub from_be_bytes : Bytes → ℕ → ℕ
from_be_bytes [] n = n
from_be_bytes (b ∷ bytes) n = from_be_bytes bytes (n * 256 + b)

abbrev pub page_of : Bytes → ℕ
page_of key = from_be_bytes (drop (length key - 4) key) 0

-- `ScriptTxsReader::num_pages_by_payload`; `items` are what an iterator gives forwards from the payload.
unfoldable pub num_pages_by_payload : Bytes → List (Bytes × List TxNum) → ℕ
num_pages_by_payload script_payload [] = 0
num_pages_by_payload script_payload ((key, value) ∷ items) =
    let rest = num_pages_by_payload script_payload items in
    if payload_of key == script_payload then (if is_empty value then rest else rest + 1) else 0

-- What `get_num_txs_by_payload` reads when the number is not in the cache; `items` are what an iterator
-- gives backwards from the payload's last possible key.
unfoldable pub stored_num_txs : ℕ → Bytes → List (Bytes × List TxNum) → ℕ
stored_num_txs page_size payload [] = 0
stored_num_txs page_size payload ((key, value) ∷ items) =
    let rest = stored_num_txs page_size payload items in
    if payload_of key == payload
    then (if is_empty value then rest else (page_of key * page_size + length value) % 2 ^ 32)
    else 0
