-- ===== src/SlpIndex/Entry.antt =====
-- chronik-rocksdb/src/slp.rs: the entry in which an SLP transaction is kept, in which tokens are
-- numbered, and the errors. Serialization is not modelled: an entry stands for its bytes.
use chronik.Prelude.{
  ℕ, ℤ, pos, negsuc, ◌^◌, true, false, ◌≡◌, Option, List, [], ◌∷◌, ltb, if◌then◌else◌,
}
use chronik.Chain.{Bytes}
use chronik.Slp.{TokenId, TxNum, SlpToken, SlpTxType, SlpError}

abbrev pub TokenNum : Type 0
TokenNum = ℕ

pub data SerSlpToken : Type 0 where
  amount : ℕ → SerSlpToken
  mint_baton : SerSlpToken

pub data SerSlpTxType : Type 0 where
  genesis send mint burn unknown : SerSlpTxType

pub record SerSlpBurn : Type 0 where
  pub token_id_num : Option TokenNum
  pub token : SerSlpToken

pub record SerSlpTxEntry : Type 0 where
  pub input_tokens : List SerSlpToken
  pub output_tokens : List SerSlpToken
  pub slp_token_type : ℕ
  pub slp_tx_type : SerSlpTxType
  pub token_num : Option TokenNum
  pub group_token_num : Option TokenNum
  pub slp_burns : List (Option SerSlpBurn)

pub data SlpWriterError : Type 0 where
  inconsistent_db_token_id_by_num : TokenNum → SlpWriterError
  inconsistent_db_token_num_by_id : TokenId → SlpWriterError
  inconsistent_db_no_such_token_num : TxNum → TokenNum → SlpWriterError
  inconsistent_db_no_such_token_id : TxNum → TokenId → SlpWriterError
  inconsistent_db_null_token_genesis : TxNum → SlpWriterError
  inconsistent_db_null_token_group_id : TxNum → SlpWriterError
  inconsistent_token_num_by_id : TokenId → SlpWriterError

-- `Result`, with the error of the batch validation, and a panic.
pub data SlpResult (A : Type 0) : Type 0 where
  ok : A → SlpResult A
  err : SlpWriterError → SlpResult A
  found_tx_cycle : SlpResult A
  panicked : SlpResult A

infixl 5 ◌>>=◌
abbrev pub ◌>>=◌ : {A B : Type 0} → SlpResult A → (A → SlpResult B) → SlpResult B
ok a >>= f = f a
err e >>= f = err e
found_tx_cycle >>= f = found_tx_cycle
panicked >>= f = panicked

-- `map` with a fallible function, then `collect::<Result<Vec<_>>>`.
abbrev pub traverse : {A B : Type 0} → (A → SlpResult B) → List A → SlpResult (List B)
traverse f [] = ok []
traverse f (x ∷ xs) = do y ← f x; ys ← traverse f xs; ok (y ∷ ys)

-- The constants of `bitcoinsuite_slp` and the text of an error. A mint baton says that it is one.
pub record SlpValues : Type 0 where
  pub mint_baton_token : SlpToken
  pub mint_baton_flag : mint_baton_token.is_mint_baton ≡ true
  pub unknown_token_type : ℕ
  pub to_string : SlpError → Bytes

-- The token ID of 32 zero bytes.
abbrev pub null_token_id : TokenId
null_token_id = 0

-- `try_into::<u64>().unwrap()`
abbrev pub to_u64 : ℤ → SlpResult ℕ
to_u64 (pos n) = if ltb n (2 ^ 64) then ok n else panicked
to_u64 (negsuc n) = panicked

unfoldable pub from_token : SlpToken → SlpResult SerSlpToken
from_token token =
    if token.is_mint_baton
    then ok SerSlpToken.mint_baton
    else (to_u64 token.amount >>= λ n. ok (SerSlpToken.amount n))

unfoldable pub to_token : SlpValues → SerSlpToken → SlpToken
to_token values (SerSlpToken.amount n) = record { amount = pos n; is_mint_baton = false }
to_token values SerSlpToken.mint_baton = values.mint_baton_token

-- `SerSlpToken::default`
abbrev pub default_token : SerSlpToken
default_token = SerSlpToken.amount 0

abbrev pub ser_tx_type : SlpTxType → SerSlpTxType
ser_tx_type (SlpTxType.genesis info) = SerSlpTxType.genesis
ser_tx_type SlpTxType.mint = SerSlpTxType.mint
ser_tx_type SlpTxType.send = SerSlpTxType.send
ser_tx_type (SlpTxType.burn n) = SerSlpTxType.burn
ser_tx_type SlpTxType.unknown = SerSlpTxType.unknown
