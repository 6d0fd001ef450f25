-- ===== src/SlpIndex/Delete.antt =====
-- chronik-rocksdb/src/slp.rs: `SlpWriter::delete_block_txs`.
use chronik.Prelude.{
  ℕ, ◌+◌, ◌-ℤ◌, Option, none, some, List, [], ◌∷◌, ◌++◌, map, enumerate, if◌then◌else◌,
}
use chronik.Std.Ord.{nat_ord}
use chronik.Std.HashMap
use chronik.Std.HashMap.{HashMap, unwrap_or}
use chronik.Chain.{Sha256d, UnhashedTx}
use chronik.Slp.{
  TokenId, TxNum, SlpTxType, SlpValidTxData, Checked, valid, invalid, SlpLib, is_ignored_error,
}
use chronik.Column.{Column, delete}
use chronik.SlpIndex.Entry.{TokenNum, SlpResult, ok, ◌>>=◌, traverse, SlpValues}
use chronik.SlpIndex.Tables.{
  SlpTables, SlpWrite, write_token_id, write_token_num, write_metadata, write_tx_data,
  write_invalid_message,
}
use chronik.SlpIndex.Reader.{token_num_by_id, slp_data_by_tx_num}
use chronik.SlpIndex.Numbers.{Cache}
use chronik.SlpIndex.Fetch.{fetch_spent_slp_outputs}
use chronik.SlpIndex.Supply.{update_token_stats}

-- What is stored for a transaction: the number of its token, and its data.
abbrev pub Stored : Type 0
Stored = TokenNum × SlpValidTxData

-- `if matches!(delete_slp.slp_tx_data.slp_tx_type, SlpTxType::Genesis(_))`
abbrev pub delete_token : SlpTxType → TokenNum → TokenId → List SlpWrite
delete_token (SlpTxType.genesis info) n token_id =
    write_token_id (delete n) ∷ write_metadata (delete n) ∷ write_token_num (delete token_id) ∷ []
delete_token SlpTxType.send n token_id = []
delete_token SlpTxType.mint n token_id = []
delete_token (SlpTxType.burn a) n token_id = []
delete_token SlpTxType.unknown n token_id = []

abbrev pub delete_stored : Option Stored → List SlpWrite
delete_stored none = []
delete_stored (some (n, slp)) = delete_token slp.slp_tx_data.slp_tx_type n slp.slp_tx_data.token_id

abbrev pub delete_valid_tx : TxNum × Option Stored → List SlpWrite
delete_valid_tx (tx_num, s) =
    write_tx_data (delete tx_num) ∷ write_invalid_message (delete tx_num) ∷ delete_stored s

unfoldable pub delete_valid_txs : List (TxNum × Option Stored) → List SlpWrite
delete_valid_txs [] = []
delete_valid_txs (d ∷ ds) = delete_valid_tx d ++ delete_valid_txs ds

-- `token_num_by_id.entry(token_id).or_insert(token_num)`
abbrev pub cache_stored : Option Stored → Cache → Cache
cache_stored none cache = cache
cache_stored (some (n, slp)) cache =
    HashMap.insert slp.slp_tx_data.token_id (unwrap_or (cache slp.slp_tx_data.token_id) n) cache

unfoldable pub cache_all : List (TxNum × Option Stored) → Cache → Cache
cache_all [] cache = cache
cache_all (d ∷ ds) cache = cache_all ds (cache_stored d.1 cache)

abbrev pub insert_stored :
    TxNum → Option Stored → HashMap TxNum SlpValidTxData → HashMap TxNum SlpValidTxData
insert_stored tx_num none m = m
insert_stored tx_num (some (n, slp)) m = HashMap.insert tx_num slp m

unfoldable pub stored_txs :
    List (TxNum × Option Stored) → HashMap TxNum SlpValidTxData → HashMap TxNum SlpValidTxData
stored_txs [] m = m
stored_txs (d ∷ ds) m = stored_txs ds (insert_stored d.0 d.1 m)

-- The transactions that are parsed, with their token IDs, and those whose errors are not ignored.
pub record DeletedTxs : Type 0 where
  pub parsed : List (TxNum × TokenId)
  pub failed : List TxNum

module _ (values : SlpValues) (lib : SlpLib) (parsed_token_id : lib.SlpParseData → TokenId)
    (ids : Column TokenId) (t : SlpTables ids) where
  abbrev pub with_num : TokenNum → Option SlpValidTxData → Option Stored
  with_num n none = none
  with_num n (some slp) = some (n, slp)

  unfoldable pub fetch_delete_data : TxNum × TokenId → SlpResult (TxNum × Option Stored)
  fetch_delete_data (tx_num, token_id) = elim (token_num_by_id values ids t token_id) [
    | none ↦ ok (tx_num, none)
    | some n ↦ (slp_data_by_tx_num values ids t tx_num >>= λ stored. ok (tx_num, with_num n stored))
  ]

  abbrev pub add_deleted : TxNum → Checked lib.SlpParseData → DeletedTxs → DeletedTxs
  add_deleted tx_num (valid p) rest = record rest {
    parsed = (tx_num, parsed_token_id p) ∷ rest.parsed;
  }
  add_deleted tx_num (invalid e) rest =
      if is_ignored_error e then rest else record rest { failed = tx_num ∷ rest.failed }

  unfoldable pub parse_deleted : TxNum → (ℕ → Sha256d) → List (ℕ × UnhashedTx) → DeletedTxs
  parse_deleted first_tx_num txid [] = record { parsed = []; failed = [] }
  parse_deleted first_tx_num txid ((tx_idx, tx) ∷ txs) =
      add_deleted (first_tx_num + tx_idx) (lib.parse_slp_tx (txid tx_idx) tx)
        (parse_deleted first_tx_num txid txs)

  unfoldable pub delete_block_txs :
      (List TokenId → List TokenId)
      → TxNum
      → List UnhashedTx
      → (ℕ → Sha256d)
      → List (List TxNum)
      → SlpResult (List SlpWrite)
  unfolding fetch_delete_data parse_deleted fetch_spent_slp_outputs delete_valid_txs cache_all
      stored_txs update_token_stats
  delete_block_txs order first_tx_num txs txid input_tx_nums = do
    let d = parse_deleted first_tx_num txid (enumerate 0 txs)
    spent ← fetch_spent_slp_outputs values ids t txs input_tx_nums
    found ← traverse fetch_delete_data d.parsed
    stats ←
        update_token_stats ◌-ℤ◌ ids t order first_tx_num txs (stored_txs found HashMap.empty)
          input_tx_nums spent (cache_all found HashMap.empty)
    ok (
        delete_valid_txs found
        ++ stats.0
        ++ map (λ tx_num. write_invalid_message (delete tx_num)) d.failed)
