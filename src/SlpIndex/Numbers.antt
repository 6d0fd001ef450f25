-- ===== src/SlpIndex/Numbers.antt =====
-- chronik-rocksdb/src/slp.rs: the numbers of the tokens, for new tokens and looked up with a cache.
use chronik.Prelude.{ℕ, ◌+◌, Option, none, some, List, [], ◌∷◌, ◌++◌, nat_eq, if◌then◌else◌}
use chronik.Std.Ord.{nat_ord}
use chronik.Std.HashMap
use chronik.Std.HashMap.{HashMap}
use chronik.Slp.{TokenId, SlpTxType, SlpValidTxData}
use chronik.Column.{Column, put}
use chronik.SlpIndex.Entry.{
  TokenNum, SlpResult, ok, err, inconsistent_db_token_num_by_id, null_token_id,
}
use chronik.SlpIndex.Tables.{SlpTables, SlpWrite, write_token_id, write_token_num, write_metadata}

-- `token_num_by_id: &mut HashMap<[u8; 32], TokenNum>`, passed along.
abbrev pub Cache : Type 0
Cache = HashMap TokenId TokenNum

-- `if let SlpTxType::Genesis(genesis) = &slp_tx_data.slp_tx_type`
abbrev pub add_genesis : TokenId → SlpTxType → List (TokenId × ℕ) → List (TokenId × ℕ)
add_genesis token_id (SlpTxType.genesis info) rest = (token_id, info) ∷ rest
add_genesis token_id SlpTxType.send rest = rest
add_genesis token_id SlpTxType.mint rest = rest
add_genesis token_id (SlpTxType.burn n) rest = rest
add_genesis token_id SlpTxType.unknown rest = rest

abbrev pub genesis_tokens : List SlpValidTxData → List (TokenId × ℕ)
genesis_tokens [] = []
genesis_tokens (slp ∷ slps) =
    add_genesis slp.slp_tx_data.token_id slp.slp_tx_data.slp_tx_type (genesis_tokens slps)

abbrev pub token_writes : TokenNum → TokenId × ℕ → List SlpWrite
token_writes n (token_id, info) =
    write_metadata (put n info)
    ∷ write_token_id (put n token_id)
    ∷ write_token_num (put token_id n)
    ∷ []

-- The loop over the new tokens: the number counts up.
unfoldable pub number_tokens : TokenNum → Cache → List (TokenId × ℕ) → List SlpWrite × Cache
number_tokens n cache [] = ([], cache)
number_tokens n cache (token ∷ tokens) =
    let rest = number_tokens (n + 1) (HashMap.insert token.0 n cache) tokens in
    (token_writes n token ++ rest.0, rest.1)

module _ (ids : Column TokenId) where
  unfoldable pub get_next_token_num : SlpTables ids → TokenNum
  get_next_token_num t = elim (ids.last t.token_id_by_num) [ none ↦ 0 | some item ↦ item.0 + 1 ]

  unfoldable pub insert_new_tokens : SlpTables ids → List SlpValidTxData → List SlpWrite × Cache
  unfolding get_next_token_num number_tokens
  insert_new_tokens t valid_tx_data =
      number_tokens (get_next_token_num t) HashMap.empty (genesis_tokens valid_tx_data)

  abbrev pub looked_up : TokenId → Cache → Option TokenNum → SlpResult (Option TokenNum × Cache)
  looked_up token_id cache none = err (inconsistent_db_token_num_by_id token_id)
  looked_up token_id cache (some n) = ok (some n, HashMap.insert token_id n cache)

  abbrev pub first_cached :
      SlpTables ids → TokenId → Cache → Option TokenNum → SlpResult (Option TokenNum × Cache)
  first_cached t token_id cache (some n) = ok (some n, cache)
  first_cached t token_id cache none = looked_up token_id cache (t.token_num_by_id token_id)

  unfoldable pub get_token_num_by_token_id :
      SlpTables ids → TokenId → Cache → SlpResult (Option TokenNum × Cache)
  get_token_num_by_token_id t token_id cache =
      if nat_eq token_id null_token_id
      then ok (none, cache)
      else first_cached t token_id cache (cache token_id)
