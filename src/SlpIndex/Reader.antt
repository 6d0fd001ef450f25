-- ===== src/SlpIndex/Reader.antt =====
-- chronik-rocksdb/src/slp.rs: `SlpReader`.
use chronik.Prelude.{ℕ, ℤ, pos, ◌+ℤ◌, Option, none, some, List, [], ◌∷◌, map}
use chronik.Chain.{Bytes}
use chronik.Slp.{TokenId, TxNum, SlpToken, SlpTxType, SlpBurn, SlpValidTxData, TokenStats}
use chronik.Column.{Column}
use chronik.SlpIndex.Entry.{
  TokenNum, SerSlpTxType, SerSlpBurn, SerSlpTxEntry, SlpResult, ok, err,
  inconsistent_db_token_id_by_num, inconsistent_db_null_token_genesis,
  inconsistent_db_no_such_token_num, ◌>>=◌, traverse, SlpValues, null_token_id, to_u64, to_token,
}
use chronik.SlpIndex.Tables.{SlpTables}

-- The sum of the amounts, as an `SlpAmount`.
abbrev pub sum_amounts : List SlpToken → ℤ
sum_amounts [] = pos 0
sum_amounts (token ∷ tokens) = token.amount +ℤ sum_amounts tokens

module _ (values : SlpValues) (ids : Column TokenId) where
  unfoldable pub get_token_id_by_token_num : SlpTables ids → TokenNum → SlpResult TokenId
  get_token_id_by_token_num t token_num = elim (ids.get t.token_id_by_num token_num) [
    | none ↦ err (inconsistent_db_token_id_by_num token_num)
    | some token_id ↦ ok token_id
  ]

  -- No number stands for the null token.
  abbrev pub read_token_id : SlpTables ids → Option TokenNum → SlpResult TokenId
  read_token_id t none = ok null_token_id
  read_token_id t (some token_num) = get_token_id_by_token_num t token_num

  abbrev pub read_group_id : SlpTables ids → Option TokenNum → SlpResult (Option TokenId)
  read_group_id t none = ok none
  read_group_id t (some token_num) = do
    token_id ← get_token_id_by_token_num t token_num
    ok (some token_id)

  abbrev pub read_burn : SlpTables ids → Option SerSlpBurn → SlpResult (Option SlpBurn)
  read_burn t none = ok none
  read_burn t (some b) = do
    token_id ← read_token_id t b.token_id_num
    ok (some (record { token = to_token values b.token; token_id = token_id }))

  unfoldable pub token_by_token_num : SlpTables ids → TokenNum → Option ℕ
  token_by_token_num t token_num = t.token_metadata token_num

  unfoldable pub token_num_by_id : SlpTables ids → TokenId → Option TokenNum
  token_num_by_id t token_id = t.token_num_by_id token_id

  abbrev pub read_genesis : SlpTables ids → TxNum → Option TokenNum → SlpResult SlpTxType
  read_genesis t tx_num none = err (inconsistent_db_null_token_genesis tx_num)
  read_genesis t tx_num (some token_num) = elim (token_by_token_num t token_num) [
    | none ↦ err (inconsistent_db_no_such_token_num tx_num token_num)
    | some info ↦ ok (SlpTxType.genesis info)
  ]

  -- The amount of a BURN is that of its inputs.
  abbrev pub read_tx_type :
      SlpTables ids → TxNum → Option TokenNum → List SlpToken → SerSlpTxType → SlpResult SlpTxType
  read_tx_type t tx_num token_num input_tokens SerSlpTxType.genesis =
      read_genesis t tx_num token_num
  read_tx_type t tx_num token_num input_tokens SerSlpTxType.mint = ok SlpTxType.mint
  read_tx_type t tx_num token_num input_tokens SerSlpTxType.send = ok SlpTxType.send
  read_tx_type t tx_num token_num input_tokens SerSlpTxType.burn = do
    amount ← to_u64 (sum_amounts input_tokens)
    ok (SlpTxType.burn amount)
  read_tx_type t tx_num token_num input_tokens SerSlpTxType.unknown = ok SlpTxType.unknown

  unfoldable pub read_entry : SlpTables ids → TxNum → SerSlpTxEntry → SlpResult SlpValidTxData
  read_entry t tx_num e = do
    slp_burns ← traverse (read_burn t) e.slp_burns
    let input_tokens = map (to_token values) e.input_tokens
    slp_tx_type ← read_tx_type t tx_num e.token_num input_tokens e.slp_tx_type
    token_id ← read_token_id t e.token_num
    group_token_id ← read_group_id t e.group_token_num
    ok (record {
      slp_tx_data = record {
        input_tokens = input_tokens;
        output_tokens = map (to_token values) e.output_tokens;
        slp_token_type = e.slp_token_type;
        slp_tx_type = slp_tx_type;
        token_id = token_id;
        group_token_id = group_token_id;
      };
      slp_burns = slp_burns;
    })

  unfoldable pub slp_data_by_tx_num : SlpTables ids → TxNum → SlpResult (Option SlpValidTxData)
  unfolding read_entry
  slp_data_by_tx_num t tx_num = elim (t.slp_tx_data tx_num) [
    | none ↦ ok none
    | some e ↦ (read_entry t tx_num e >>= λ slp. ok (some slp))
  ]

  unfoldable pub slp_invalid_message_tx_num : SlpTables ids → TxNum → Option Bytes
  slp_invalid_message_tx_num t tx_num = t.slp_tx_invalid_message tx_num

  unfoldable pub token_stats_by_token_num : SlpTables ids → TokenNum → Option TokenStats
  token_stats_by_token_num t token_num = t.token_stats token_num
