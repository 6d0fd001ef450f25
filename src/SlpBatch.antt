-- ===== src/SlpBatch.antt =====
-- chronik-rocksdb/src/slp_batch.rs: the validation of the SLP transactions of a block, parents first.
pub mod Laws
pub mod Verdicts
pub mod Known
pub mod Progress
use chronik.Prelude.{
  ℕ, zero, suc, Bool, true, false, not, ◌&&◌, ◌≡◌, Option, none, some, List, [], ◌∷◌, any, map, zip,
  length, if◌then◌else◌,
}
use chronik.Std.Ord.{Ord, ◌==◌, nat_ord, pair_ord, cmp_fields, cmp_fields-Laws}
use chronik.Std.HashMap
use chronik.Std.HashMap.{HashMap, is_some, unwrap_or}
use chronik.Chain.{TxInput, UnhashedTx}
use chronik.Slp.{
  TxNum, SlpBurn, SlpValidTxData, SlpSpentOutput, SlpError, Checked, valid, invalid, SlpLib,
  spent_output,
}
use chronik.Rounds.{Visit, wait, step, Ended, rounds}

-- `OutpointEntry` of chronik-rocksdb/src/outpoint_data.rs.
pub record OutpointEntry : Type 0 where
  pub tx_num : TxNum
  pub out_idx : ℕ

abbrev pub entry_fields : OutpointEntry → TxNum × ℕ
entry_fields o = (o.tx_num, o.out_idx)

pub entry_fields_injective : (x y : OutpointEntry) → entry_fields x ≡ entry_fields y → x ≡ y
entry_fields_injective x y h = λ i. record { tx_num = (h i).0; out_idx = (h i).1 }

instance unfoldable pub entry_ord : Ord OutpointEntry
unfolding pair_ord nat_ord
entry_ord = record {
  cmp = cmp_fields entry_fields;
  laws = cmp_fields-Laws entry_fields entry_fields_injective;
}

pub record SlpInvalidTxData : Type 0 where
  pub slp_burns : List (Option SlpBurn)
  pub slp_error : SlpError

pub record BatchSlpTx (P : Type 0) : Type 0 where
  pub tx : UnhashedTx
  pub parsed_tx_data : P
  pub input_tx_nums : List (Option TxNum)

-- What the loop updates.
pub record BatchState : Type 0 where
  pub known_slp_outputs : HashMap OutpointEntry (Option SlpSpentOutput)
  pub valid_results : HashMap TxNum SlpValidTxData
  pub invalid_results : HashMap TxNum SlpInvalidTxData

-- The outpoint of an input, if the transaction that it spends is known.
abbrev pub outpoint_of : TxInput × Option TxNum → Option OutpointEntry
outpoint_of (input, none) = none
outpoint_of (input, some n) = some (record { tx_num = n; out_idx = input.prev_out.out_idx })

-- An input whose token is not known yet, but will be by a transaction of the batch.
abbrev pub is_unknown : (TxNum → Bool) → BatchState → Option OutpointEntry → Bool
is_unknown in_batch s none = false
is_unknown in_batch s (some o) = not (is_some (s.known_slp_outputs o)) && in_batch o.tx_num

abbrev pub spent_at : BatchState → Option OutpointEntry → Option SlpSpentOutput
spent_at s none = none
spent_at s (some o) = unwrap_or (s.known_slp_outputs o) none

abbrev pub burn_of : Option SlpSpentOutput → Option SlpBurn
burn_of none = none
burn_of (some o) = some (record { token = o.token; token_id = o.token_id })

-- `for out_idx in 0..num_outputs`
abbrev pub insert_outputs :
    TxNum
    → (ℕ → Option SlpSpentOutput)
    → ℕ
    → HashMap OutpointEntry (Option SlpSpentOutput)
    → HashMap OutpointEntry (Option SlpSpentOutput)
insert_outputs tx_num output zero known = known
insert_outputs tx_num output (suc n) known =
    HashMap.insert (record { tx_num = tx_num; out_idx = n }) (output n)
      (insert_outputs tx_num output n known)

unfoldable pub record_verdict :
    TxNum → ℕ → List (Option SlpSpentOutput) → Checked SlpValidTxData → BatchState → BatchState
record_verdict tx_num num_outputs spent (valid v) s = record s {
  known_slp_outputs =
      insert_outputs tx_num (spent_output v.slp_tx_data) num_outputs s.known_slp_outputs;
  valid_results = HashMap.insert tx_num v s.valid_results;
}
record_verdict tx_num num_outputs spent (invalid e) s = record s {
  known_slp_outputs = insert_outputs tx_num (λ _. none) num_outputs s.known_slp_outputs;
  invalid_results =
      HashMap.insert tx_num (record { slp_burns = map burn_of spent; slp_error = e })
        s.invalid_results;
}

-- `txs` and `tx_nums` as lists of the entries of the hash map.
abbrev pub in_txs : {P : Type 0} → List (TxNum × BatchSlpTx P) → TxNum → Bool
in_txs txs n = any (λ item. item.0 == n) txs

abbrev pub inputs_of : {P : Type 0} → BatchSlpTx P → List (Option OutpointEntry)
inputs_of b = map outpoint_of (zip b.tx.inputs b.input_tx_nums)

module _ (lib : SlpLib) where
  -- The verdict on a transaction, from what is known of the outputs that it spends.
  abbrev pub verdict : BatchSlpTx lib.SlpParseData → BatchState → Checked SlpValidTxData
  verdict b s = lib.validate_slp_tx b.parsed_tx_data (map (spent_at s) (inputs_of b))

  unfoldable pub validate_one : TxNum → BatchSlpTx lib.SlpParseData → BatchState → BatchState
  unfolding record_verdict
  validate_one tx_num b s =
      record_verdict tx_num (length b.tx.outputs) (map (spent_at s) (inputs_of b)) (verdict b s) s

  unfoldable pub visit_slp :
      {E : Type 0}
      → (TxNum → Bool)
      → TxNum × BatchSlpTx lib.SlpParseData
      → BatchState
      → Visit E BatchState
  unfolding validate_one
  visit_slp in_batch (tx_num, b) s =
      if any (is_unknown in_batch s) (inputs_of b) then wait else step (validate_one tx_num b s)

  -- `cycle` is the error `FoundTxCycle`; there is no other.
  unfoldable pub validate_slp_batch :
      (List (TxNum × BatchSlpTx lib.SlpParseData) → List (TxNum × BatchSlpTx lib.SlpParseData))
      → List (TxNum × BatchSlpTx lib.SlpParseData)
      → HashMap OutpointEntry (Option SlpSpentOutput)
      → Ended (TxNum × BatchSlpTx lib.SlpParseData) ⊥ BatchState
  unfolding visit_slp
  validate_slp_batch order txs known =
      rounds (λ left. visit_slp (in_txs txs)) order (suc (length txs)) txs
        (record {
          known_slp_outputs = known;
          valid_results = HashMap.empty;
          invalid_results = HashMap.empty;
        })
