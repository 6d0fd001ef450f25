-- ===== src/Slp.antt =====
-- The SLP types that the crates take from `bitcoinsuite_slp`, with the fields that they use, and its
-- two functions as an interface.
use chronik.Prelude.{none, some, get_elem?, ℕ, ℤ, Bool, true, false, Option, List}
use chronik.Chain.{Sha256d, UnhashedTx}

abbrev pub TokenId : Type 0
TokenId = ℕ

abbrev pub TxNum : Type 0
TxNum = ℕ

pub record SlpToken : Type 0 where
  pub amount : ℤ
  pub is_mint_baton : Bool

-- The numbers stand for the genesis information and the token types that are not looked into.
pub data SlpTxType : Type 0 where
  genesis : ℕ → SlpTxType
  send mint : SlpTxType
  burn : ℕ → SlpTxType
  unknown : SlpTxType

pub record SlpTxData : Type 0 where
  pub input_tokens : List SlpToken
  pub output_tokens : List SlpToken
  pub slp_token_type : ℕ
  pub slp_tx_type : SlpTxType
  pub token_id : TokenId
  pub group_token_id : Option TokenId

pub record SlpBurn : Type 0 where
  pub token : SlpToken
  pub token_id : TokenId

pub record SlpValidTxData : Type 0 where
  pub slp_tx_data : SlpTxData
  pub slp_burns : List (Option SlpBurn)

pub record SlpSpentOutput : Type 0 where
  pub token_id : TokenId
  pub token_type : ℕ
  pub token : SlpToken
  pub group_token_id : Option TokenId

-- The output of an SLP transaction, if it has a token.
abbrev pub spent_output : SlpTxData → ℕ → Option SlpSpentOutput
spent_output slp out_idx = elim (get_elem? slp.output_tokens out_idx) [
  | none ↦ none
  | some token ↦ some (record {
    token_id = slp.token_id;
    token_type = slp.slp_token_type;
    token = token;
    group_token_id = slp.group_token_id;
  })
]

-- The errors that `is_ignored_error` tells apart; `other` numbers all the rest.
pub data SlpError : Type 0 where
  no_opcodes missing_op_return invalid_lokad_id bytes_error : SlpError
  other : ℕ → SlpError

-- Rust's `Result`, of a check on a transaction.
pub data Checked (A : Type 0) : Type 0 where
  valid : A → Checked A
  invalid : SlpError → Checked A

pub record SlpLib : Type 1 where
  pub SlpParseData : Type 0
  pub parse_slp_tx : Sha256d → UnhashedTx → Checked SlpParseData
  pub validate_slp_tx : SlpParseData → List (Option SlpSpentOutput) → Checked SlpValidTxData

-- `is_ignored_error` of chronik-rocksdb/src/slp.rs: the transaction does not look like SLP at all.
unfoldable pub is_ignored_error : SlpError → Bool
is_ignored_error no_opcodes = true
is_ignored_error missing_op_return = true
is_ignored_error invalid_lokad_id = true
is_ignored_error bytes_error = true
is_ignored_error (other n) = false

-- `TokenStats` of chronik-rocksdb/src/slp.rs.
pub record TokenStats : Type 0 where
  pub total_minted : ℤ
  pub total_burned : ℤ

-- What the mempool reads of the database, through `TxReader` and `SlpReader`; `none` is a failure.
pub record SlpDb : Type 0 where
  pub tx_num_by_txid : Sha256d → Option (Option TxNum)
  pub slp_data_by_tx_num : TxNum → Option (Option SlpValidTxData)
