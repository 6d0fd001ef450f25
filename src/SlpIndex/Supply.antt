-- ===== src/SlpIndex/Supply.antt =====
-- chronik-rocksdb/src/slp.rs: `calc_token_supply_delta` and `update_token_stats`.
use chronik.Prelude.{
  ℕ, zero, suc, ◌+◌, ℤ, pos, negsuc, ◌+ℤ◌, Bool, false, ◌||◌, Option, none, some, List, [], ◌∷◌,
  ◌++◌, map, any, zip, enumerate, get_elem?, nat_eq, if◌then◌else◌,
}
use chronik.Std.HashMap.{HashMap, unwrap_or}
use chronik.Chain.{TxInput, UnhashedTx}
use chronik.Slp.{
  TokenId, TxNum, SlpToken, SlpTxType, SlpBurn, SlpValidTxData, SlpSpentOutput, TokenStats,
}
use chronik.MempoolSlpData.{no_stats}
use chronik.Column.{Column, put, find}
use chronik.SlpIndex.Entry.{
  TokenNum, SlpResult, ok, inconsistent_token_num_by_id, ◌>>=◌, null_token_id,
}
use chronik.SlpIndex.Tables.{SlpTables, SlpWrite, write_stats}
use chronik.SlpIndex.Numbers.{Cache, get_token_num_by_token_id}
use chronik.SlpIndex.Fetch.{item_at}

pub record SlpInputToken : Type 0 where
  pub token_id : TokenId
  pub token : SlpToken

-- `HashMap<[u8; 32], i128>`, by its entries.
abbrev pub Amounts : Type 0
Amounts = List (TokenId × ℤ)

-- `*amounts.entry(token_id).or_default() += amount`
unfoldable pub add_amount : TokenId → ℤ → Amounts → Amounts
add_amount token_id amount [] = (token_id, pos 0 +ℤ amount) ∷ []
add_amount token_id amount ((k, v) ∷ rest) =
    if nat_eq token_id k then (k, v +ℤ amount) ∷ rest else (k, v) ∷ add_amount token_id amount rest

pub record Supply : Type 0 where
  pub minted : Amounts
  pub burned : Amounts

abbrev pub is_zero : ℤ → Bool
is_zero (pos n) = nat_eq n 0
is_zero (negsuc n) = false

-- Neither an amount of zero nor one of the null token is counted.
unfoldable pub burn_token : TokenId → SlpToken → Supply → Supply
unfolding add_amount
burn_token token_id token s =
    if is_zero token.amount || nat_eq token_id null_token_id
    then s
    else record s { burned = add_amount token_id token.amount s.burned }

-- `for burn in valid_slp_tx.slp_burns.iter().flatten()`
unfoldable pub add_burns : List (Option SlpBurn) → Supply → Supply
unfolding burn_token
add_burns [] s = s
add_burns (none ∷ burns) s = add_burns burns s
add_burns (some b ∷ burns) s = add_burns burns (burn_token b.token_id b.token s)

-- `for spent_output in slp_token_inputs.iter().flatten()`
unfoldable pub add_inputs : List (Option SlpInputToken) → Supply → Supply
unfolding burn_token
add_inputs [] s = s
add_inputs (none ∷ inputs) s = add_inputs inputs s
add_inputs (some i ∷ inputs) s = add_inputs inputs (burn_token i.token_id i.token s)

unfoldable pub add_minted : TokenId → List SlpToken → Supply → Supply
unfolding add_amount
add_minted token_id [] s = s
add_minted token_id (token ∷ tokens) s =
    add_minted token_id tokens (record s { minted = add_amount token_id token.amount s.minted })

abbrev pub supply_of_type :
    SlpTxType → List (Option SlpInputToken) → SlpValidTxData → Supply → Supply
supply_of_type SlpTxType.send inputs slp s = add_burns slp.slp_burns s
supply_of_type (SlpTxType.genesis info) inputs slp s =
    add_minted slp.slp_tx_data.token_id slp.slp_tx_data.output_tokens (add_inputs inputs s)
supply_of_type SlpTxType.mint inputs slp s =
    add_minted slp.slp_tx_data.token_id slp.slp_tx_data.output_tokens (add_inputs inputs s)
supply_of_type (SlpTxType.burn n) inputs slp s = add_inputs inputs s
supply_of_type SlpTxType.unknown inputs slp s = add_inputs inputs s

unfoldable pub calc_token_supply_delta :
    List (Option SlpInputToken) → Option SlpValidTxData → Supply → Supply
unfolding add_inputs add_burns add_minted
calc_token_supply_delta inputs none s = add_inputs inputs s
calc_token_supply_delta inputs (some slp) s =
    supply_of_type slp.slp_tx_data.slp_tx_type inputs slp s

-- The token of an input: of the database, or else of an output of a transaction of the block.
abbrev pub output_input : ℕ → Option SlpValidTxData → Option SlpInputToken
output_input out_idx none = none
output_input out_idx (some slp) = elim (get_elem? slp.slp_tx_data.output_tokens out_idx) [
  | none ↦ none
  | some token ↦ some (record { token_id = slp.slp_tx_data.token_id; token = token })
]

abbrev pub token_input :
    HashMap TxNum SlpValidTxData → (TxInput × TxNum) × Option SlpSpentOutput → Option SlpInputToken
token_input valid_txs ((input, n), some o) =
    some (record { token_id = o.token_id; token = o.token })
token_input valid_txs ((input, n), none) = output_input input.prev_out.out_idx (valid_txs n)

abbrev pub slp_token_inputs :
    HashMap TxNum SlpValidTxData
    → List (List TxNum)
    → List (List (Option SlpSpentOutput))
    → ℕ
    → UnhashedTx
    → SlpResult (List (Option SlpInputToken))
slp_token_inputs valid_txs input_tx_nums spent zero tx = ok (none ∷ [])
slp_token_inputs valid_txs input_tx_nums spent (suc i) tx = do
  nums ← item_at input_tx_nums i
  outputs ← item_at spent i
  ok (map (token_input valid_txs) (zip (zip tx.inputs nums) outputs))

-- The loop over the transactions of the block.
unfoldable pub block_supply :
    TxNum
    → HashMap TxNum SlpValidTxData
    → List (List TxNum)
    → List (List (Option SlpSpentOutput))
    → List (ℕ × UnhashedTx)
    → Supply
    → SlpResult Supply
unfolding calc_token_supply_delta
block_supply first_tx_num valid_txs input_tx_nums spent [] s = ok s
block_supply first_tx_num valid_txs input_tx_nums spent ((tx_idx, tx) ∷ txs) s = do
  inputs ← slp_token_inputs valid_txs input_tx_nums spent tx_idx tx
  block_supply first_tx_num valid_txs input_tx_nums spent txs
      (calc_token_supply_delta inputs (valid_txs (first_tx_num + tx_idx)) s)

-- `collect::<HashSet<_>>`
abbrev pub unique_ids : List TokenId → List TokenId
unique_ids [] = []
unique_ids (x ∷ xs) = if any (nat_eq x) xs then unique_ids xs else x ∷ unique_ids xs

abbrev pub stats_token_ids : Supply → List TokenId
stats_token_ids s = unique_ids (map (λ e. e.0) s.burned ++ map (λ e. e.0) s.minted)

module _ (op : ℤ → ℤ → ℤ) where
  abbrev pub updated : ℤ → Option ℤ → ℤ
  updated total none = total
  updated total (some amount) = op total amount

  abbrev pub updated_stats : Supply → TokenId → TokenStats → TokenStats
  updated_stats s token_id old = record {
    total_minted = updated old.total_minted (find token_id s.minted);
    total_burned = updated old.total_burned (find token_id s.burned);
  }

  module _ (ids : Column TokenId) (t : SlpTables ids) (s : Supply) where
    abbrev pub stats_write : TokenId → TokenNum → SlpWrite
    stats_write token_id n =
        write_stats (put n (updated_stats s token_id (unwrap_or (t.token_stats n) no_stats)))

    abbrev pub stats_step : TokenId → Option TokenNum × Cache → SlpResult (SlpWrite × Cache)
    stats_step token_id (none, cache) = SlpResult.err (inconsistent_token_num_by_id token_id)
    stats_step token_id (some n, cache) = ok (stats_write token_id n, cache)

    unfoldable pub write_stats_of : List TokenId → Cache → SlpResult (List SlpWrite × Cache)
    unfolding get_token_num_by_token_id
    write_stats_of [] cache = ok ([], cache)
    write_stats_of (token_id ∷ rest) cache = do
      found ← get_token_num_by_token_id ids t token_id cache
      first ← stats_step token_id found
      others ← write_stats_of rest first.1
      ok (first.0 ∷ others.0, others.1)

  -- `order` is the order in which the hash set is iterated.
  unfoldable pub update_token_stats :
      (ids : Column TokenId)
      → SlpTables ids
      → (List TokenId → List TokenId)
      → TxNum
      → List UnhashedTx
      → HashMap TxNum SlpValidTxData
      → List (List TxNum)
      → List (List (Option SlpSpentOutput))
      → Cache
      → SlpResult (List SlpWrite × Cache)
  unfolding block_supply write_stats_of
  update_token_stats ids t order first_tx_num txs valid_txs input_tx_nums spent cache = do
    s ←
        block_supply first_tx_num valid_txs input_tx_nums spent (enumerate 0 txs)
          (record { minted = []; burned = [] })
    write_stats_of ids t s (order (stats_token_ids s)) cache
