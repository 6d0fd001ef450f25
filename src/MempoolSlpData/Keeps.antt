-- ===== src/MempoolSlpData/Keeps.antt =====
-- What every update of the token statistics keeps.
use chronik.Prelude.{ℤ, ◌≡◌, refl, Option, none, some, List, [], ◌∷◌, arith}
use chronik.Std.Ord.{nat_ord}
use chronik.Slp.{
  TokenId, SlpToken, SlpTxType, SlpBurn, SlpValidTxData, SlpSpentOutput, TokenStats, SlpError,
}
use chronik.Chain.{Sha256d}
use chronik.MempoolSlpData.{
  MempoolSlpData, update_token, burn, mint_token, burn_computed, burn_inputs, mint_outputs,
  update_valid, update_token_stats,
}
use chronik.MempoolSlpData.Stats.{update_token-delta, update_token-stats}
use chronik.MempoolSlpData.Totals.{IsTidy}

module _ (P : MempoolSlpData → Type 0)
    (keeps : (token_id : TokenId) (f : TokenStats → TokenStats) (s : MempoolSlpData)
      → P s
      → P (update_token token_id f s))
    (op : ℤ → ℤ → ℤ) where
  burn-keeps :
      (token_id : TokenId) (amount : ℤ) (s : MempoolSlpData) → P s → P (burn op token_id amount s)
  unfolding burn
  burn-keeps token_id amount s h =
      keeps token_id (λ t. record t { total_burned = op t.total_burned amount }) s h

  mint_token-keeps :
      (token_id : TokenId) (amount : ℤ) (s : MempoolSlpData)
      → P s
      → P (mint_token op token_id amount s)
  unfolding mint_token
  mint_token-keeps token_id amount s h =
      keeps token_id (λ t. record t { total_minted = op t.total_minted amount }) s h

  burn_computed-keeps :
      (burns : List (Option SlpBurn)) (s : MempoolSlpData) → P s → P (burn_computed op burns s)
  unfolding burn_computed
  burn_computed-keeps [] s h = h
  burn_computed-keeps (none ∷ burns) s h = burn_computed-keeps burns s h
  burn_computed-keeps (some b ∷ burns) s h =
      burn_computed-keeps burns _ (burn-keeps b.token_id b.token.amount s h)

  burn_inputs-keeps :
      (spent : List (Option SlpSpentOutput)) (s : MempoolSlpData) → P s → P (burn_inputs op spent s)
  unfolding burn_inputs
  burn_inputs-keeps [] s h = h
  burn_inputs-keeps (none ∷ spent) s h = burn_inputs-keeps spent s h
  burn_inputs-keeps (some o ∷ spent) s h =
      burn_inputs-keeps spent _ (burn-keeps o.token_id o.token.amount s h)

  mint_outputs-keeps :
      (token_id : TokenId) (tokens : List SlpToken) (s : MempoolSlpData)
      → P s
      → P (mint_outputs op token_id tokens s)
  unfolding mint_outputs
  mint_outputs-keeps token_id [] s h = h
  mint_outputs-keeps token_id (token ∷ tokens) s h =
      mint_outputs-keeps token_id tokens _ (mint_token-keeps token_id token.amount s h)

  update_valid-keeps :
      (ty : SlpTxType) (slp : SlpValidTxData) (spent : List (Option SlpSpentOutput))
      (s : MempoolSlpData)
      → P s
      → P (update_valid op ty slp spent s)
  update_valid-keeps SlpTxType.send slp spent s h = burn_computed-keeps slp.slp_burns s h
  update_valid-keeps (SlpTxType.genesis info) slp spent s h =
      mint_outputs-keeps _ slp.slp_tx_data.output_tokens _ (burn_inputs-keeps spent s h)
  update_valid-keeps SlpTxType.mint slp spent s h =
      mint_outputs-keeps _ slp.slp_tx_data.output_tokens _ (burn_inputs-keeps spent s h)
  update_valid-keeps (SlpTxType.burn amount) slp spent s h = burn_inputs-keeps spent s h
  update_valid-keeps SlpTxType.unknown slp spent s h = burn_inputs-keeps spent s h

  pub update_token_stats-keeps :
      (slp : Option SlpValidTxData) (spent : List (Option SlpSpentOutput)) (s : MempoolSlpData)
      → P s
      → P (update_token_stats op slp spent s)
  unfolding update_token_stats
  update_token_stats-keeps none spent s h = burn_inputs-keeps spent s h
  update_token_stats-keeps (some slp) spent s h =
      update_valid-keeps slp.slp_tx_data.slp_tx_type slp spent s h

update_token-IsTidy :
    (token_id : TokenId) (f : TokenStats → TokenStats) (s : MempoolSlpData)
    → IsTidy s
    → IsTidy (update_token token_id f s)
update_token-IsTidy token_id f s h j =
    ground (arith, update_token-delta token_id f s j, update_token-stats token_id f s j, h j)

pub update_token_stats-IsTidy :
    (op : ℤ → ℤ → ℤ) (slp : Option SlpValidTxData) (spent : List (Option SlpSpentOutput))
    (s : MempoolSlpData)
    → IsTidy s
    → IsTidy (update_token_stats op slp spent s)
update_token_stats-IsTidy = update_token_stats-keeps IsTidy update_token-IsTidy

-- The maps of the transactions.
abbrev pub SlpTxs : Type 0
SlpTxs = (Sha256d → Option SlpValidTxData) × (Sha256d → Option SlpError)

abbrev pub slp_txs : MempoolSlpData → SlpTxs
slp_txs s = (s.valid_slp_txs, s.invalid_slp_txs)

pub update_token_stats-slp_txs :
    (op : ℤ → ℤ → ℤ) (slp : Option SlpValidTxData) (spent : List (Option SlpSpentOutput))
    (s : MempoolSlpData)
    → slp_txs (update_token_stats op slp spent s) ≡ slp_txs s
unfolding update_token
update_token_stats-slp_txs op slp spent s =
    update_token_stats-keeps (λ s'. slp_txs s' ≡ slp_txs s) kept op slp spent s refl
  where
    kept :
        (token_id : TokenId) (f : TokenStats → TokenStats) (s' : MempoolSlpData)
        → slp_txs s' ≡ slp_txs s
        → slp_txs (update_token token_id f s') ≡ slp_txs s
    kept token_id f s' h = h
