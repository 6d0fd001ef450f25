-- ===== src/MempoolSlpData.antt =====
-- chronik-rocksdb/src/mempool_slp_data.rs: the SLP transactions of the mempool, and the changes that
-- they make to the token statistics.
pub mod Stats
pub mod Totals
pub mod Keeps
pub mod Laws
pub mod RoundTrip
use chronik.Prelude.{
  ℕ, ℤ, pos, ◌+ℤ◌, ◌-ℤ◌, Bool, true, false, ◌&&◌, Option, none, some, List, [], ◌∷◌, map, get_elem?,
  if◌then◌else◌,
}
use chronik.Std.Ord.{◌==◌, nat_ord, int_ord}
use chronik.Std.HashMap
use chronik.Std.HashMap.{HashMap, unwrap_or}
use chronik.Chain.{Sha256d, OutPoint, TxInput, UnhashedTx}
use chronik.Slp.{
  TokenId, TxNum, SlpToken, SlpTxType, SlpTxData, SlpBurn, SlpValidTxData, SlpSpentOutput, SlpError,
  Checked, valid, invalid, SlpLib, is_ignored_error, TokenStats, SlpDb, spent_output,
}

pub record MempoolSlpData : Type 0 where
  pub valid_slp_txs : HashMap Sha256d SlpValidTxData
  pub invalid_slp_txs : HashMap Sha256d SlpError
  pub token_stats_delta : HashMap TokenId TokenStats

abbrev pub no_stats : TokenStats
no_stats = record { total_minted = pos 0; total_burned = pos 0 }

abbrev pub is_default : TokenStats → Bool
is_default t = t.total_minted == pos 0 && t.total_burned == pos 0

-- `update_token`: statistics that are back at zero are removed.
unfoldable pub update_token : TokenId → (TokenStats → TokenStats) → MempoolSlpData → MempoolSlpData
update_token token_id f s =
    let stats = f (unwrap_or (s.token_stats_delta token_id) no_stats) in
    record s {
      token_stats_delta =
          if is_default stats
          then HashMap.remove token_id s.token_stats_delta
          else HashMap.insert token_id stats s.token_stats_delta;
    }

module _ (op : ℤ → ℤ → ℤ) where
  unfoldable pub burn : TokenId → ℤ → MempoolSlpData → MempoolSlpData
  unfolding update_token
  burn token_id amount =
      update_token token_id (λ t. record t { total_burned = op t.total_burned amount })

  unfoldable pub mint_token : TokenId → ℤ → MempoolSlpData → MempoolSlpData
  unfolding update_token
  mint_token token_id amount =
      update_token token_id (λ t. record t { total_minted = op t.total_minted amount })

  -- `for burn in slp.slp_burns.iter().flatten()`
  unfoldable pub burn_computed : List (Option SlpBurn) → MempoolSlpData → MempoolSlpData
  burn_computed [] s = s
  burn_computed (none ∷ burns) s = burn_computed burns s
  burn_computed (some b ∷ burns) s = burn_computed burns (burn b.token_id b.token.amount s)

  -- `for spent_output in spent_outputs.iter().flatten()`
  unfoldable pub burn_inputs : List (Option SlpSpentOutput) → MempoolSlpData → MempoolSlpData
  burn_inputs [] s = s
  burn_inputs (none ∷ spent) s = burn_inputs spent s
  burn_inputs (some o ∷ spent) s = burn_inputs spent (burn o.token_id o.token.amount s)

  unfoldable pub mint_outputs : TokenId → List SlpToken → MempoolSlpData → MempoolSlpData
  mint_outputs token_id [] s = s
  mint_outputs token_id (token ∷ tokens) s =
      mint_outputs token_id tokens (mint_token token_id token.amount s)

  -- What a valid transaction does, by its type: SEND has its burns computed and mints nothing; all
  -- others burn their inputs; GENESIS and MINT mint their outputs.
  abbrev update_valid :
      SlpTxType → SlpValidTxData → List (Option SlpSpentOutput) → MempoolSlpData → MempoolSlpData
  update_valid SlpTxType.send slp spent s = burn_computed slp.slp_burns s
  update_valid (SlpTxType.genesis info) slp spent s =
      mint_outputs slp.slp_tx_data.token_id slp.slp_tx_data.output_tokens (burn_inputs spent s)
  update_valid SlpTxType.mint slp spent s =
      mint_outputs slp.slp_tx_data.token_id slp.slp_tx_data.output_tokens (burn_inputs spent s)
  update_valid (SlpTxType.burn amount) slp spent s = burn_inputs spent s
  update_valid SlpTxType.unknown slp spent s = burn_inputs spent s

  unfoldable pub update_token_stats :
      Option SlpValidTxData → List (Option SlpSpentOutput) → MempoolSlpData → MempoolSlpData
  update_token_stats none spent s = burn_inputs spent s
  update_token_stats (some slp) spent s = update_valid slp.slp_tx_data.slp_tx_type slp spent s

abbrev from_db : Option (Option SlpValidTxData) → ℕ → Option (Option SlpSpentOutput)
from_db none out_idx = none
from_db (some none) out_idx = some none
from_db (some (some slp)) out_idx = some (spent_output slp.slp_tx_data out_idx)

abbrev by_tx_num : SlpDb → Option (Option TxNum) → ℕ → Option (Option SlpSpentOutput)
by_tx_num db none out_idx = none
by_tx_num db (some none) out_idx = some none
by_tx_num db (some (some tx_num)) out_idx = from_db (db.slp_data_by_tx_num tx_num) out_idx

-- What the mempool holds comes before the database.
abbrev pub first_found :
    SlpDb → OutPoint → Option SlpValidTxData → Option SlpError → Option (Option SlpSpentOutput)
first_found db prev_out (some tx_data) e = some (spent_output tx_data.slp_tx_data prev_out.out_idx)
first_found db prev_out none (some e) = some none
first_found db prev_out none none = by_tx_num db (db.tx_num_by_txid prev_out.txid) prev_out.out_idx

unfoldable pub collect_spent_output :
    SlpDb → MempoolSlpData → OutPoint → Option (Option SlpSpentOutput)
collect_spent_output db s prev_out =
    first_found db prev_out (s.valid_slp_txs prev_out.txid) (s.invalid_slp_txs prev_out.txid)

abbrev pub push : {A : Type 0} → Option A → Option (List A) → Option (List A)
push none rest = none
push (some a) none = none
push (some a) (some items) = some (a ∷ items)

unfoldable pub collect_inputs :
    SlpDb → MempoolSlpData → List TxInput → Option (List (Option SlpSpentOutput))
unfolding collect_spent_output
collect_inputs db s [] = some []
collect_inputs db s (input ∷ inputs) =
    push (collect_spent_output db s input.prev_out) (collect_inputs db s inputs)

unfoldable pub collect_spent_outputs :
    SlpDb → MempoolSlpData → UnhashedTx → Option (List (Option SlpSpentOutput))
collect_spent_outputs db s tx = collect_inputs db s tx.inputs

module _ (lib : SlpLib) where
  abbrev pub validate_slp_tx :
      Sha256d → UnhashedTx → List (Option SlpSpentOutput) → Checked SlpValidTxData
  validate_slp_tx txid tx spent = elim (lib.parse_slp_tx txid tx) [
    | invalid e ↦ invalid e
    | valid parsed ↦ lib.validate_slp_tx parsed spent
  ]

  unfoldable pub insert_checked :
      Sha256d
      → List (Option SlpSpentOutput)
      → Checked SlpValidTxData
      → MempoolSlpData
      → MempoolSlpData
  insert_checked txid spent (valid slp) s =
      let s' = update_token_stats ◌+ℤ◌ (some slp) spent s in
      record s' { valid_slp_txs = HashMap.insert txid slp s'.valid_slp_txs }
  insert_checked txid spent (invalid e) s =
      let s' = update_token_stats ◌+ℤ◌ none spent s in
      if is_ignored_error e
      then s'
      else record s' { invalid_slp_txs = HashMap.insert txid e s'.invalid_slp_txs }

  -- `none` is a failure of the database, before anything is written.
  unfoldable pub insert_mempool_tx :
      SlpDb → Sha256d → UnhashedTx → MempoolSlpData → Option MempoolSlpData
  insert_mempool_tx db txid tx s = elim (collect_spent_outputs db s tx) [
    | none ↦ none
    | some spent ↦ some (insert_checked txid spent (validate_slp_tx txid tx spent) s)
  ]

unfoldable pub delete_checked :
    Sha256d → List (Option SlpSpentOutput) → MempoolSlpData → MempoolSlpData
delete_checked txid spent s =
    let removed = record s { valid_slp_txs = HashMap.remove txid s.valid_slp_txs } in
    let s' = update_token_stats ◌-ℤ◌ (s.valid_slp_txs txid) spent removed in
    record s' { invalid_slp_txs = HashMap.remove txid s'.invalid_slp_txs }

unfoldable pub delete_mempool_tx :
    SlpDb → Sha256d → UnhashedTx → MempoolSlpData → Option MempoolSlpData
delete_mempool_tx db txid tx s = elim (collect_spent_outputs db s tx) [
  | none ↦ none
  | some spent ↦ some (delete_checked txid spent s)
]
