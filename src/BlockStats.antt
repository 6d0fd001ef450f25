-- ===== src/BlockStats.antt =====
-- chronik-rocksdb/src/block_stats.rs: the statistics of a block.
pub mod Laws
use chronik.Prelude.{
  ℕ, ◌+◌, ◌-◌, ◌%◌, ◌^◌, ℤ, pos, ◌+ℤ◌, Bool, Option, none, some, List, [], ◌∷◌, ◌++◌, map, length,
  enumerate, concat_map, tail, if◌then◌else◌,
}
use chronik.Chain.{OutPoint, TxInput, TxOutput, UnhashedTx}
use chronik.ScriptPayload.{ScriptLib}
use chronik.Column.{Column, Write, put, delete}
use chronik.Txs.{BlockHeight, TxEntry, BlockTxs}
use chronik.Blocks.{Block}

-- The sizes are 64-bit and the sums 64-bit signed numbers, which a block does not overflow.
pub record BlockStats : Type 0 where
  pub block_size : ℕ
  pub num_txs : ℕ
  pub num_inputs : ℕ
  pub num_outputs : ℕ
  pub sum_input_sats : ℤ
  pub sum_coinbase_output_sats : ℤ
  pub sum_normal_output_sats : ℤ
  pub sum_burned_sats : ℤ

-- The variables of the loop over the transactions.
pub record Sums : Type 0 where
  pub num_inputs : ℕ
  pub num_outputs : ℕ
  pub sum_coinbase_output_sats : ℤ
  pub sum_normal_output_sats : ℤ
  pub sum_burned_sats : ℤ

abbrev pub sum_sats : List ℤ → ℤ
sum_sats [] = pos 0
sum_sats (v ∷ vs) = v +ℤ sum_sats vs

abbrev pub sum_sizes : List TxEntry → ℕ
sum_sizes [] = 0
sum_sizes (tx ∷ txs) = tx.tx_size + sum_sizes txs

abbrev pub values : List TxOutput → List ℤ
values = map (λ output. output.value)

-- `filter(|output| output.script.is_opreturn())`
abbrev pub burned : (TxOutput → Bool) → List TxOutput → List TxOutput
burned is_opreturn [] = []
burned is_opreturn (output ∷ outputs) =
    let rest = burned is_opreturn outputs in if is_opreturn output then output ∷ rest else rest

abbrev pub and_then_sums : (Sums → Option Sums) → Option Sums → Option Sums
and_then_sums f none = none
and_then_sums f (some t) = f t

-- `OutPoint::is_coinbase` of `bitcoinsuite_core` is a parameter. `none` is a panic.
module _ (lib : ScriptLib) (is_coinbase : OutPoint → Bool) where
  abbrev pub add_tx : Sums → UnhashedTx → List TxInput → Option Sums
  add_tx t tx [] = none
  add_tx t tx (input ∷ inputs) = some (
      let sats = sum_sats (values tx.outputs) in
      record {
        num_inputs = t.num_inputs + length tx.inputs;
        num_outputs = t.num_outputs + length tx.outputs;
        sum_coinbase_output_sats =
            if is_coinbase input.prev_out
            then t.sum_coinbase_output_sats +ℤ sats
            else t.sum_coinbase_output_sats;
        sum_normal_output_sats =
            if is_coinbase input.prev_out
            then t.sum_normal_output_sats
            else t.sum_normal_output_sats +ℤ sats;
        sum_burned_sats =
            t.sum_burned_sats
            +ℤ sum_sats (values (burned (λ output. lib.is_opreturn output.script) tx.outputs));
      })

  unfoldable pub add_txs : List UnhashedTx → Sums → Option Sums
  add_txs [] t = some t
  add_txs (tx ∷ txs) t = and_then_sums (add_txs txs) (add_tx t tx tx.inputs)

  -- What the inputs spend; `spent` is `block_spent_output_fn`.
  abbrev pub input_values : (ℕ → ℕ → TxOutput) → ℕ × UnhashedTx → List ℤ
  input_values spent (tx_pos, tx) =
      map (λ item. (spent tx_pos item.0).value) (enumerate 0 tx.inputs)

  abbrev pub stats_of :
      Block → List UnhashedTx → (ℕ → ℕ → TxOutput) → List TxEntry → Option Sums → Option BlockStats
  stats_of block txs spent [] t = none
  stats_of block txs spent (entry ∷ entries) none = none
  stats_of block txs spent (entry ∷ entries) (some t) = some (record {
    block_size = (entry.data_pos + 2 ^ 32 - block.data_pos) % 2 ^ 32 + sum_sizes (entry ∷ entries);
    num_txs = length txs;
    num_inputs = t.num_inputs;
    num_outputs = t.num_outputs;
    sum_input_sats = sum_sats (concat_map (input_values spent) (enumerate 0 (tail txs)));
    sum_coinbase_output_sats = t.sum_coinbase_output_sats;
    sum_normal_output_sats = t.sum_normal_output_sats;
    sum_burned_sats = t.sum_burned_sats;
  })

  -- The statistics that `BlockStatsWriter::insert_block_txs` writes; the difference of positions wraps.
  unfoldable pub block_stats :
      Block → List UnhashedTx → BlockTxs → (ℕ → ℕ → TxOutput) → Option BlockStats
  unfolding add_txs
  block_stats block txs block_txs spent = stats_of block txs spent block_txs.txs (
      add_txs txs (record {
        num_inputs = 0;
        num_outputs = 0;
        sum_coinbase_output_sats = pos 0;
        sum_normal_output_sats = pos 0;
        sum_burned_sats = pos 0;
      }))

  unfoldable pub insert_block_txs :
      Block → List UnhashedTx → BlockTxs → (ℕ → ℕ → TxOutput) → Option (List (Write BlockStats))
  unfolding block_stats
  insert_block_txs block txs block_txs spent = elim (block_stats block txs block_txs spent) [
    | none ↦ none
    | some stats ↦ some (put block.height stats ∷ [])
  ]

abbrev pub delete_by_height : BlockHeight → List (Write BlockStats)
delete_by_height height = delete height ∷ []

-- `BlockStatsReader::by_height`
abbrev pub by_height : (column : Column BlockStats) → column.State → BlockHeight → Option BlockStats
by_height column s height = column.get s height
