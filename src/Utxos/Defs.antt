-- ===== src/Utxos/Defs.antt =====
-- The entries of the column, their bytes as numbers, and the loops over a block.
use chronik.Prelude.{
  ℕ, ◌+◌, ◌%◌, ◌^◌, ◌-◌, ◌/◌, ℤ, pos, negsuc, Bool, Option, none, some, List, [], ◌∷◌, ◌++◌, map,
  enumerate, zip, concat_map, tail, nat_eq, if◌then◌else◌,
}
use chronik.Std.Ord.{nat_ord, list_ord}
use chronik.Std.HashMap
use chronik.Std.HashMap.{HashMap, unwrap_or}
use chronik.Std.SortedVec.{Search, binary_search}
use chronik.Chain.{Bytes, TxInput, TxOutput, UnhashedTx}
use chronik.ScriptPayload.{ScriptLib, script_payloads, into_vec}
use chronik.Slp.{TxNum}
use chronik.SlpBatch.{OutpointEntry, entry_ord}

pub record UtxoEntry : Type 0 where
  pub outpoint : OutpointEntry
  pub value : ℤ
  pub is_partial_script : Bool

pub record UtxoData : Type 0 where
  pub outpoint : OutpointEntry
  pub field : ℕ

pub data UtxosError : Type 0 where
  unknown_input_spent : TxInput → UtxosError
  already_exists doesnt_exist : OutpointEntry → UtxosError

-- `value as u64`: 64-bit two's complement.
abbrev pub as_u64 : ℤ → ℕ
as_u64 (pos n) = n % 2 ^ 64
as_u64 (negsuc n) = 2 ^ 64 - 1 - n % 2 ^ 64

-- `MASK_VALUE` is 2^63 - 1 and `MASK_IS_PARTIAL_SCRIPT` is 2^63: the sign bit of the value is free.
unfoldable pub data_of : UtxoEntry → UtxoData
data_of e = record {
  outpoint = e.outpoint;
  field =
      let value = as_u64 e.value % 2 ^ 63 in if e.is_partial_script then value + 2 ^ 63 else value;
}

unfoldable pub entry_of : UtxoData → UtxoEntry
entry_of d = record {
  outpoint = d.outpoint;
  value = pos (d.field % 2 ^ 63);
  is_partial_script = nat_eq (d.field / 2 ^ 63 % 2) 1;
}

-- Entries compare by their outpoints.
abbrev pub outpoints : List UtxoData → List OutpointEntry
outpoints = map (λ d. d.outpoint)

abbrev pub search_entry : OutpointEntry → List UtxoData → Search
search_entry o entries = binary_search o (outpoints entries)

module _ (lib : ScriptLib) where
  -- What an output adds, under each key of its script.
  abbrev pub output_entries : TxNum → ℕ × TxOutput → List (Bytes × UtxoEntry)
  output_entries tx_num (out_idx, output) =
      map
        (λ st. (
          into_vec st.payload,
          record {
            outpoint = record { tx_num = tx_num; out_idx = out_idx };
            value = output.value;
            is_partial_script = st.is_partial;
          },
        ))
        (script_payloads lib output.script)

  abbrev pub tx_outputs : TxNum → UnhashedTx → List (Bytes × UtxoEntry)
  tx_outputs tx_num tx = concat_map (output_entries tx_num) (enumerate 0 tx.outputs)

  unfoldable pub block_outputs : TxNum → List UnhashedTx → List (Bytes × UtxoEntry)
  block_outputs first_tx_num txs =
      concat_map (λ item. tx_outputs (first_tx_num + item.0) item.1) (enumerate 0 txs)

  -- What an input takes away; `spent` is `block_spent_output_fn`.
  abbrev pub input_outpoints :
      (ℕ → ℕ → TxOutput) → ℕ → ℕ × (TxInput × TxNum) → List (Bytes × OutpointEntry)
  input_outpoints spent tx_pos (input_idx, (input, spent_tx_num)) =
      map
        (λ st.
          (into_vec st.payload, record { tx_num = spent_tx_num; out_idx = input.prev_out.out_idx }))
        (script_payloads lib (spent tx_pos input_idx).script)

  abbrev pub tx_inputs :
      (ℕ → ℕ → TxOutput) → ℕ × (UnhashedTx × List TxNum) → List (Bytes × OutpointEntry)
  tx_inputs spent (tx_pos, (tx, input_tx_nums)) =
      concat_map (input_outpoints spent tx_pos) (enumerate 0 (zip tx.inputs input_tx_nums))

  unfoldable pub block_inputs :
      (ℕ → ℕ → TxOutput) → List UnhashedTx → List (List TxNum) → List (Bytes × OutpointEntry)
  block_inputs spent txs input_tx_nums =
      concat_map (tx_inputs spent) (enumerate 0 (zip (tail txs) input_tx_nums))

-- `entry(key).or_insert(vec![]).push(value)`, for each item.
unfoldable pub push_all :
    {V : Type 0} → List (Bytes × V) → HashMap Bytes (List V) → HashMap Bytes (List V)
push_all [] m = m
push_all ((key, v) ∷ items) m =
    push_all items (HashMap.insert key (unwrap_or (m key) [] ++ v ∷ []) m)

-- What a read finds after the batch: a list that has become empty is deleted.
abbrev pub stored : Option (List UtxoData) → Option (List UtxoData) → Option (List UtxoData)
stored old none = old
stored old (some []) = none
stored old (some (d ∷ entries)) = some (d ∷ entries)

unfoldable pub commit :
    HashMap Bytes (List UtxoData) → HashMap Bytes (List UtxoData) → HashMap Bytes (List UtxoData)
commit changes db key = stored (db key) (changes key)

-- `UtxosReader::utxos`
unfoldable pub utxos : HashMap Bytes (List UtxoData) → Bytes → List UtxoEntry
utxos db key = map entry_of (unwrap_or (db key) [])
