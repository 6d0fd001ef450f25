-- ===== src/SlpIndex/Insert.antt =====
-- chronik-rocksdb/src/slp.rs: `SlpWriter::insert_block_txs`.
use chronik.Prelude.{
  ℕ, ◌+◌, ◌+ℤ◌, ◌&&◌, Option, none, some, List, [], ◌∷◌, ◌++◌, map, enumerate, nat_eq,
  if◌then◌else◌,
}
use chronik.Std.BTreeSet.{is_empty}
use chronik.Std.HashMap.{HashMap}
use chronik.Chain.{Sha256d, UnhashedTx}
use chronik.Slp.{TokenId, TxNum, SlpSpentOutput, SlpLib}
use chronik.Rounds.{Ended, finished, cycle, error, out_of_fuel}
use chronik.SlpBatch.{BatchSlpTx, BatchState, validate_slp_batch}
use chronik.Column.{Column}
use chronik.SlpIndex.Entry.{SlpResult, ok, found_tx_cycle, panicked, ◌>>=◌, SlpValues}
use chronik.SlpIndex.Tables.{SlpTables, SlpWrite}
use chronik.SlpIndex.Numbers.{get_next_token_num, insert_new_tokens}
use chronik.SlpIndex.Store.{insert_new_valid_txs, insert_new_invalid_txs}
use chronik.SlpIndex.Fetch.{
  ParsedTxs, parse_block_slp_txs, fetch_spent_slp_outputs, build_batch_txs, build_known_slp_outputs,
}
use chronik.SlpIndex.Supply.{update_token_stats}

-- The orders in which hash maps and sets are iterated.
pub record Orders (lib : SlpLib) : Type 0 where
  pub rounds :
      List (TxNum × BatchSlpTx lib.SlpParseData) → List (TxNum × BatchSlpTx lib.SlpParseData)
  pub results : List TxNum → List TxNum
  pub token_ids : List TokenId → List TokenId

-- The entries of a hash map whose keys are among the numbers.
abbrev pub push_entry : {A : Type 0} → TxNum → Option A → List (TxNum × A) → List (TxNum × A)
push_entry n none rest = rest
push_entry n (some a) rest = (n, a) ∷ rest

abbrev pub entries_of : {A : Type 0} → HashMap TxNum A → List TxNum → List (TxNum × A)
entries_of m [] = []
entries_of m (n ∷ ns) = push_entry n (m n) (entries_of m ns)

-- `?` on the batch validation, which never runs out of fuel.
abbrev pub batch_result : {X : Type 0} → Ended X ⊥ BatchState → SlpResult BatchState
batch_result (finished s) = ok s
batch_result (cycle left s) = found_tx_cycle
batch_result (error e s) = absurd e
batch_result out_of_fuel = panicked

module _ (values : SlpValues) (lib : SlpLib) (ids : Column TokenId) (t : SlpTables ids)
    (orders : Orders lib) (first_tx_num : TxNum) (txs : List UnhashedTx)
    (input_tx_nums : List (List TxNum)) where
  -- From the verdicts on: new tokens, valid transactions, statistics, invalid transactions.
  unfoldable pub insert_verdicts :
      ParsedTxs lib.SlpParseData
      → List (List (Option SlpSpentOutput))
      → List TxNum
      → BatchState
      → SlpResult (List SlpWrite)
  unfolding insert_new_tokens insert_new_valid_txs update_token_stats insert_new_invalid_txs
  insert_verdicts p spent tx_nums s = do
    let valid_txs = entries_of s.valid_results (orders.results tx_nums)
    let tokens = insert_new_tokens ids t (map (λ e. e.1) valid_txs)
    stored ← insert_new_valid_txs values ids t valid_txs tokens.1
    stats ←
        update_token_stats ◌+ℤ◌ ids t orders.token_ids first_tx_num txs s.valid_results
          input_tx_nums spent stored.1
    ok (
        tokens.0
        ++ stored.0
        ++ stats.0
        ++ insert_new_invalid_txs values ids t first_tx_num p.failed
            (entries_of s.invalid_results (orders.results tx_nums)))

  unfoldable pub insert_parsed : ParsedTxs lib.SlpParseData → SlpResult (List SlpWrite)
  unfolding fetch_spent_slp_outputs build_batch_txs build_known_slp_outputs insert_verdicts
  insert_parsed p = do
    spent ← fetch_spent_slp_outputs values ids t txs input_tx_nums
    batch_txs ← build_batch_txs p.parsed txs input_tx_nums
    known ← build_known_slp_outputs batch_txs spent
    let numbered =
        map (λ (e : ℕ × BatchSlpTx lib.SlpParseData). (first_tx_num + e.0, e.1)) batch_txs
    s ← batch_result (validate_slp_batch lib orders.rounds numbered known)
    insert_verdicts p spent (map (λ e. e.0) numbered) s

  -- Nothing is done for a block without SLP transactions as long as there are no tokens.
  unfoldable pub insert_block_txs : (ℕ → Sha256d) → SlpResult (List SlpWrite)
  unfolding parse_block_slp_txs get_next_token_num insert_parsed
  insert_block_txs txid =
      let p = parse_block_slp_txs lib txid (enumerate 0 txs) in
      if is_empty p.parsed && (is_empty p.failed && nat_eq (get_next_token_num ids t) 0)
      then ok []
      else insert_parsed p
