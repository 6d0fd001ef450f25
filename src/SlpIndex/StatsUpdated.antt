-- ===== src/SlpIndex/StatsUpdated.antt =====
-- The statistics of the tokens after a block is connected or disconnected, from what it mints and burns.
use chronik.Prelude.{
  ℕ, pos, false, ◌≡◌, ◌≢◌, arith, zero_+ℤ, refl, ◌∙◌, ap, sym, ℤ, Bool, true, false, Option, none,
  some, List, [], map, any, All, enumerate, nat_eq, if◌then◌else◌,
}
use chronik.Std.HashMap.{HashMap, unwrap_or}
use chronik.Std.Shuffle.{Shuffle, any-Shuffle, All-Shuffle}
use chronik.Chain.{UnhashedTx}
use chronik.Slp.{TokenId, TxNum, SlpValidTxData, SlpSpentOutput, TokenStats}
use chronik.MempoolSlpData.{no_stats}
use chronik.Column.{Column, find}
use chronik.SlpIndex.Accounting.{amount_of}
use chronik.SlpIndex.BlockSupply.{Spends, minted_in, burned_in, block_supply-Grows, uncounted-find}
use chronik.SlpIndex.Entry.{null_token_id, TokenNum, SlpResult, ok}
use chronik.SlpIndex.Tables.{SlpTables, SlpWrite, commit}
use chronik.SlpIndex.Numbers.{Cache}
use chronik.SlpIndex.Numbering.{IsNumbered, Agrees}
use chronik.SlpIndex.Entries.{HasTokenNum}
use chronik.SlpIndex.Supply.{
  Supply, block_supply, updated, updated_stats, stats_token_ids, update_token_stats,
}
use chronik.SlpIndex.Stats.{
  put_stats, stats_at, commit-put_stats, write_stats_of-Writes, stats-puts,
}

-- The arguments of a call of `update_token_stats` that do not change with the tables.
pub record StatsCall : Type 0 where
  pub order : List TokenId → List TokenId
  pub first_tx_num : TxNum
  pub txs : List UnhashedTx
  pub valid_txs : HashMap TxNum SlpValidTxData
  pub input_tx_nums : List (List TxNum)
  pub spent : List (List (Option SlpSpentOutput))
  pub cache : Cache

abbrev pub Counts : StatsCall → Supply → Type 0
Counts c s =
    (block_supply c.first_tx_num c.valid_txs c.input_tx_nums c.spent (enumerate 0 c.txs)
        (record { minted = []; burned = [] })
      ≡ ok s)
    × Shuffle (stats_token_ids s) (c.order (stats_token_ids s))

module _ (ids : Column TokenId) where
  abbrev pub run_stats : (ℤ → ℤ → ℤ) → SlpTables ids → StatsCall → SlpResult (List SlpWrite × Cache)
  run_stats op t c =
      update_token_stats op ids t c.order c.first_tx_num c.txs c.valid_txs c.input_tx_nums c.spent
        c.cache

  -- A token that is counted has its new statistics under its number; any other keeps what it has.
  abbrev pub AreWritten :
      (ℤ → ℤ → ℤ) → SlpTables ids → SlpTables ids → SlpTables ids → Supply → Type 0
  AreWritten op t t' u s =
      (id : TokenId) (n : TokenNum)
      → t'.token_num_by_id id ≡ some n
      → u.token_stats n ≡ (
          if any (nat_eq id) (stats_token_ids s)
          then some (updated_stats op s id (stats_at ids t n))
          else t'.token_stats n)

  abbrev Runs : (ℤ → ℤ → ℤ) → SlpTables ids → SlpTables ids → StatsCall → Supply → Type 0
  Runs op t t' c s =
      (es : List (TokenNum × TokenStats)) × (cache : Cache) × ((run_stats op t c
          ≡ ok (map put_stats es, cache))
        × AreWritten op t t' (commit ids (map put_stats es) t') s)

  run_stats-Runs :
      (op : ℤ → ℤ → ℤ) (t t' : SlpTables ids) (c : StatsCall) (s : Supply)
      → IsNumbered ids t'
      → Agrees ids c.cache t t'
      → Counts c s
      → All (HasTokenNum ids t') (stats_token_ids s)
      → Runs op t t' c s
  unfolding update_token_stats
  run_stats-Runs op t t' c s v a (counted, sh) known =
      let (es, cache, (put_es, are)) =
        write_stats_of-Writes ids op t t' v s (c.order (stats_token_ids s)) c.cache a
          (All-Shuffle (HasTokenNum ids t') sh known) in
      (
        es,
        cache,
        (
          rw (counted, put_es),
          λ id n e.
              ap (λ u. u.token_stats n) (commit-put_stats ids es t')
              ∙ stats-puts ids op t t' v s (c.order (stats_token_ids s)) es id n t'.token_stats are
                  e
              ∙ ap
                  (λ b.
                    if b then some (updated_stats op s id (stats_at ids t n)) else t'.token_stats n)
                  (sym (any-Shuffle (nat_eq id) sh)),
        ),
      )

  -- Every token with a number has the totals that the operation gives for the amounts that the block
  -- mints and burns of it.
  abbrev pub AreUpdated :
      (ℤ → ℤ → ℤ)
      → SlpTables ids
      → SlpTables ids
      → StatsCall
      → (ℕ → List (Option SlpSpentOutput))
      → Type 0
  AreUpdated op t u c spent =
      (id : TokenId) (n : TokenNum)
      → t.token_num_by_id id ≡ some n
      → stats_at ids u n ≡ record {
        total_minted = op (stats_at ids t n).total_minted (
            minted_in c.first_tx_num c.valid_txs c.input_tx_nums c.spent spent id
              (enumerate 0 c.txs));
        total_burned = op (stats_at ids t n).total_burned (
            burned_in c.first_tx_num c.valid_txs c.input_tx_nums c.spent spent id
              (enumerate 0 c.txs));
      }

  abbrev total_minted_in : StatsCall → (ℕ → List (Option SlpSpentOutput)) → TokenId → ℤ
  total_minted_in c spent id =
      minted_in c.first_tx_num c.valid_txs c.input_tx_nums c.spent spent id (enumerate 0 c.txs)

  module _ (op : ℤ → ℤ → ℤ) (op_zero : (a : ℤ) → op a (pos 0) ≡ a) where
    updated-amount :
        (total : ℤ) (o : Option ℤ) → updated op total o ≡ op total (unwrap_or o (pos 0))
    updated-amount total none = sym (op_zero total)
    updated-amount total (some amount) = refl

    -- The statistics with the amounts of a token added.
    abbrev by_amounts : TokenStats → ℤ → ℤ → TokenStats
    by_amounts old m b = record {
      total_minted = op old.total_minted m;
      total_burned = op old.total_burned b;
    }

    counted_or_not :
        (b : Bool) (s : Supply) (id : TokenId) (o p : Option TokenStats)
        → (b ≡ false → (find id s.minted ≡ none) × (find id s.burned ≡ none))
        → p ≡ (if b then some (updated_stats op s id (unwrap_or o no_stats)) else o)
        → unwrap_or p no_stats
          ≡ by_amounts (unwrap_or o no_stats) (amount_of id s.minted) (amount_of id s.burned)
    counted_or_not true s id o p no_amounts e = ap (λ r. unwrap_or r no_stats) e ∙ λ i. record {
      total_minted = updated-amount (unwrap_or o no_stats).total_minted (find id s.minted) i;
      total_burned = updated-amount (unwrap_or o no_stats).total_burned (find id s.burned) i;
    }
    counted_or_not false s id o p no_amounts e =
        ap (λ r. unwrap_or r no_stats) e
        ∙ sym (λ i. record {
          total_minted =
              (ap (λ a. op (unwrap_or o no_stats).total_minted (unwrap_or a (pos 0)))
                    (no_amounts refl).0
                  ∙ op_zero (unwrap_or o no_stats).total_minted)
                i;
          total_burned =
              (ap (λ a. op (unwrap_or o no_stats).total_burned (unwrap_or a (pos 0)))
                    (no_amounts refl).1
                  ∙ op_zero (unwrap_or o no_stats).total_burned)
                i;
        })

    pub update_token_stats-AreUpdated :
        (t t' : SlpTables ids) (c : StatsCall) (s : Supply)
        (spent : ℕ → List (Option SlpSpentOutput))
        → IsNumbered ids t'
        → t.token_stats ≡ t'.token_stats
        → Agrees ids c.cache t t'
        → All (Spends c.first_tx_num c.valid_txs c.input_tx_nums c.spent spent) (enumerate 0 c.txs)
        → Counts c s
        → All (HasTokenNum ids t') (stats_token_ids s)
        → (ws : List SlpWrite) × (cache : Cache) × ((run_stats op t c ≡ ok (ws, cache))
            × AreUpdated op t' (commit ids ws t') c spent)
    update_token_stats-AreUpdated t t' c s spent v same a inputs counts known =
        let (es, cache, (ran, written)) = run_stats-Runs op t t' c s v a counts known in
        (map put_stats es, cache, (ran, totals (commit ids (map put_stats es) t') written))
      where
        totals : (u : SlpTables ids) → AreWritten op t t' u s → AreUpdated op t' u c spent
        totals u written id n e =
            let listed = any (nat_eq id) (stats_token_ids s) in
            let real : id ≢ null_token_id =
              λ q. ground (arith, ap t'.token_num_by_id q, e, v.null_has_none) in
            let grown =
              block_supply-Grows c.first_tx_num c.valid_txs c.input_tx_nums c.spent spent id
                (enumerate 0 c.txs) (record { minted = []; burned = [] }) s real inputs counts.0 in
            counted_or_not listed s id (t'.token_stats n) (u.token_stats n) (uncounted-find id s) (
              written id n e
              ∙ ap
                  (λ (f : HashMap TokenNum TokenStats).
                    if listed
                    then some (updated_stats op s id (unwrap_or (f n) no_stats))
                    else t'.token_stats n)
                  same)
            ∙ ap (λ m. by_amounts (stats_at ids t' n) m (amount_of id s.burned))
                (grown.0 ∙ zero_+ℤ _)
            ∙ ap (λ b. by_amounts (stats_at ids t' n) (total_minted_in c spent id) b)
                (grown.1 ∙ zero_+ℤ _)
