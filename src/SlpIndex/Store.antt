-- ===== src/SlpIndex/Store.antt =====
-- chronik-rocksdb/src/slp.rs: `insert_new_valid_txs` and `insert_new_invalid_txs`.
use chronik.Prelude.{ℕ, ◌+◌, Option, none, some, List, [], ◌∷◌, ◌++◌, map, nat_eq, if◌then◌else◌}
use chronik.Slp.{TokenId, TxNum, SlpTxData, SlpBurn, SlpValidTxData, SlpError}
use chronik.SlpBatch.{SlpInvalidTxData}
use chronik.Column.{Column, put}
use chronik.SlpIndex.Entry.{
  TokenNum, SerSlpBurn, SerSlpTxEntry, SlpWriterError, SlpResult, ok, err,
  inconsistent_db_no_such_token_id, inconsistent_db_null_token_group_id, ◌>>=◌, traverse, SlpValues,
  from_token, ser_tx_type,
}
use chronik.SlpIndex.Tables.{SlpTables, SlpWrite, write_tx_data, write_invalid_message}
use chronik.SlpIndex.Numbers.{Cache, get_token_num_by_token_id}

-- `ok_or`, on a number that is looked up.
abbrev pub ok_or : SlpWriterError → Option TokenNum × Cache → SlpResult (Option TokenNum × Cache)
ok_or e (none, cache) = err e
ok_or e (some n, cache) = ok (some n, cache)

module _ (values : SlpValues) (ids : Column TokenId) (t : SlpTables ids) where
  -- A token of unknown type has no number.
  abbrev pub find_token_num : TxNum → SlpTxData → Cache → SlpResult (Option TokenNum × Cache)
  find_token_num tx_num d cache =
      if nat_eq d.slp_token_type values.unknown_token_type
      then ok (none, cache)
      else (get_token_num_by_token_id ids t d.token_id cache
          >>= ok_or (inconsistent_db_no_such_token_id tx_num d.token_id))

  abbrev pub find_group_num : TxNum → Option TokenId → Cache → SlpResult (Option TokenNum × Cache)
  find_group_num tx_num none cache = ok (none, cache)
  find_group_num tx_num (some token_id) cache =
      get_token_num_by_token_id ids t token_id cache
      >>= ok_or (inconsistent_db_null_token_group_id tx_num)

  abbrev pub ser_burn : Option SlpBurn → Cache → SlpResult (Option SerSlpBurn × Cache)
  ser_burn none cache = ok (none, cache)
  ser_burn (some b) cache = do
    found ← get_token_num_by_token_id ids t b.token_id cache
    token ← from_token b.token
    ok (some (record { token_id_num = found.0; token = token }), found.1)

  abbrev pub ser_burns :
      List (Option SlpBurn) → Cache → SlpResult (List (Option SerSlpBurn) × Cache)
  ser_burns [] cache = ok ([], cache)
  ser_burns (b ∷ bs) cache = do
    first ← ser_burn b cache
    rest ← ser_burns bs first.1
    ok (first.0 ∷ rest.0, rest.1)

  unfoldable pub ser_entry : TxNum → SlpValidTxData → Cache → SlpResult (SerSlpTxEntry × Cache)
  ser_entry tx_num slp cache = do
    let d = slp.slp_tx_data
    token_num ← find_token_num tx_num d cache
    group_token_num ← find_group_num tx_num d.group_token_id token_num.1
    slp_burns ← ser_burns slp.slp_burns group_token_num.1
    input_tokens ← traverse from_token d.input_tokens
    output_tokens ← traverse from_token d.output_tokens
    ok (
      record {
        input_tokens = input_tokens;
        output_tokens = output_tokens;
        slp_token_type = d.slp_token_type;
        slp_tx_type = ser_tx_type d.slp_tx_type;
        token_num = token_num.0;
        group_token_num = group_token_num.0;
        slp_burns = slp_burns.0;
      },
      slp_burns.1,
    )

  unfoldable pub insert_new_valid_txs :
      List (TxNum × SlpValidTxData) → Cache → SlpResult (List SlpWrite × Cache)
  unfolding ser_entry
  insert_new_valid_txs [] cache = ok ([], cache)
  insert_new_valid_txs ((tx_num, slp) ∷ txs) cache = do
    entry ← ser_entry tx_num slp cache
    rest ← insert_new_valid_txs txs entry.1
    ok (write_tx_data (put tx_num entry.0) ∷ rest.0, rest.1)

  unfoldable pub insert_new_invalid_txs :
      TxNum → List (ℕ × SlpError) → List (TxNum × SlpInvalidTxData) → List SlpWrite
  insert_new_invalid_txs first_tx_num parsed validated =
      map (λ e. write_invalid_message (put (first_tx_num + e.0) (values.to_string e.1))) parsed
      ++ map (λ e. write_invalid_message (put e.0 (values.to_string e.1.slp_error))) validated
