-- ===== src/SlpIndex/Fetch.antt =====
-- chronik-rocksdb/src/slp.rs: what a block's SLP transactions are and spend: `parse_block_slp_txs`,
-- `fetch_spent_slp_outputs`, `build_batch_txs` and `build_known_slp_outputs`.
use chronik.Prelude.{
  ℕ, zero, suc, Option, none, some, List, [], ◌∷◌, map, concat_map, zip, enumerate, tail, get_elem?,
  if◌then◌else◌,
}
use chronik.Std.HashMap
use chronik.Std.HashMap.{HashMap, unwrap_or}
use chronik.Chain.{Sha256d, TxInput, UnhashedTx}
use chronik.Slp.{
  TokenId, TxNum, SlpSpentOutput, SlpError, Checked, valid, invalid, SlpLib, is_ignored_error,
}
use chronik.SlpBatch.{OutpointEntry, entry_ord, BatchSlpTx}
use chronik.Column.{Column}
use chronik.SlpIndex.Entry.{
  SlpResult, ok, panicked, ◌>>=◌, traverse, SlpValues, default_token, to_token, SerSlpTxEntry,
}
use chronik.SlpIndex.Tables.{SlpTables}
use chronik.SlpIndex.Reader.{read_token_id, read_group_id}

-- `items[i]`, which panics out of range.
abbrev pub item_at : {A : Type 0} → List A → ℕ → SlpResult A
item_at items i = elim (get_elem? items i) [ none ↦ panicked | some a ↦ ok a ]

-- The transactions that are parsed, and the errors that are not ignored, each with its index.
pub record ParsedTxs (P : Type 0) : Type 0 where
  pub parsed : List (ℕ × P)
  pub failed : List (ℕ × SlpError)

module _ (lib : SlpLib) where
  abbrev pub add_parsed :
      ℕ → Checked lib.SlpParseData → ParsedTxs lib.SlpParseData → ParsedTxs lib.SlpParseData
  add_parsed tx_idx (valid p) rest = record rest { parsed = (tx_idx, p) ∷ rest.parsed }
  add_parsed tx_idx (invalid e) rest =
      if is_ignored_error e then rest else record rest { failed = (tx_idx, e) ∷ rest.failed }

  unfoldable pub parse_block_slp_txs :
      (ℕ → Sha256d) → List (ℕ × UnhashedTx) → ParsedTxs lib.SlpParseData
  parse_block_slp_txs txid [] = record { parsed = []; failed = [] }
  parse_block_slp_txs txid ((tx_idx, tx) ∷ txs) =
      add_parsed tx_idx (lib.parse_slp_tx (txid tx_idx) tx) (parse_block_slp_txs txid txs)

module _ (values : SlpValues) (ids : Column TokenId) (t : SlpTables ids) where
  -- An output past the end of the SLP outputs has an amount of 0.
  abbrev pub stored_output : ℕ → SerSlpTxEntry → SlpResult SlpSpentOutput
  stored_output out_idx e = do
    token_id ← read_token_id values ids t e.token_num
    group_token_id ← read_group_id values ids t e.group_token_num
    ok (record {
      token_id = token_id;
      token_type = e.slp_token_type;
      token = to_token values (unwrap_or (get_elem? e.output_tokens out_idx) default_token);
      group_token_id = group_token_id;
    })

  unfoldable pub fetch_slp_output : ℕ → TxNum → SlpResult (Option SlpSpentOutput)
  fetch_slp_output out_idx input_tx_num = elim (t.slp_tx_data input_tx_num) [
    | none ↦ ok none
    | some e ↦ (stored_output out_idx e >>= λ o. ok (some o))
  ]

  abbrev pub fetch_tx_outputs : UnhashedTx × List TxNum → SlpResult (List (Option SlpSpentOutput))
  fetch_tx_outputs (tx, nums) =
      traverse (λ (i : TxInput × TxNum). fetch_slp_output i.0.prev_out.out_idx i.1)
        (zip tx.inputs nums)

  unfoldable pub fetch_spent_slp_outputs :
      List UnhashedTx → List (List TxNum) → SlpResult (List (List (Option SlpSpentOutput)))
  unfolding fetch_slp_output
  fetch_spent_slp_outputs txs input_tx_nums =
      traverse fetch_tx_outputs (zip (tail txs) input_tx_nums)

-- The coinbase has one input, without a number.
abbrev pub batch_input_nums : List (List TxNum) → ℕ → SlpResult (List (Option TxNum))
batch_input_nums input_tx_nums zero = ok (none ∷ [])
batch_input_nums input_tx_nums (suc i) = do nums ← item_at input_tx_nums i; ok (map some nums)

abbrev pub known_entry :
    TxNum → TxInput → Option SlpSpentOutput → List (OutpointEntry × SlpSpentOutput)
known_entry n input none = []
known_entry n input (some o) = (record { tx_num = n; out_idx = input.prev_out.out_idx }, o) ∷ []

abbrev pub known_input :
    List (List (Option SlpSpentOutput))
    → ℕ
    → ℕ × (TxInput × Option TxNum)
    → SlpResult (List (OutpointEntry × SlpSpentOutput))
known_input spent tx_idx (input_idx, (input, none)) = ok []
known_input spent zero (input_idx, (input, some n)) = ok []
known_input spent (suc i) (input_idx, (input, some n)) = do
  outputs ← item_at spent i
  o ← item_at outputs input_idx
  ok (known_entry n input o)

-- `collect` into a hash map: a later entry replaces an earlier one.
abbrev pub collect_known :
    List (OutpointEntry × SlpSpentOutput)
    → HashMap OutpointEntry (Option SlpSpentOutput)
    → HashMap OutpointEntry (Option SlpSpentOutput)
collect_known [] known = known
collect_known (e ∷ es) known = collect_known es (HashMap.insert e.0 (some e.1) known)

module _ {P : Type 0} where
  abbrev pub build_batch_tx :
      List UnhashedTx → List (List TxNum) → ℕ × P → SlpResult (ℕ × BatchSlpTx P)
  build_batch_tx txs input_tx_nums (tx_idx, parsed) = do
    tx ← item_at txs tx_idx
    nums ← batch_input_nums input_tx_nums tx_idx
    ok (tx_idx, record { tx = tx; parsed_tx_data = parsed; input_tx_nums = nums })

  unfoldable pub build_batch_txs :
      List (ℕ × P) → List UnhashedTx → List (List TxNum) → SlpResult (List (ℕ × BatchSlpTx P))
  build_batch_txs parsed txs input_tx_nums = traverse (build_batch_tx txs input_tx_nums) parsed

  abbrev pub known_inputs :
      List (List (Option SlpSpentOutput))
      → ℕ × BatchSlpTx P
      → SlpResult (List (OutpointEntry × SlpSpentOutput))
  known_inputs spent (tx_idx, b) = do
    found ← traverse (known_input spent tx_idx) (enumerate 0 (zip b.tx.inputs b.input_tx_nums))
    ok (concat_map (λ es. es) found)

  unfoldable pub build_known_slp_outputs :
      List (ℕ × BatchSlpTx P)
      → List (List (Option SlpSpentOutput))
      → SlpResult (HashMap OutpointEntry (Option SlpSpentOutput))
  build_known_slp_outputs batch_txs spent = do
    found ← traverse (known_inputs spent) batch_txs
    ok (collect_known (concat_map (λ es. es) found) HashMap.empty)
