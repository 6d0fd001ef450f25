-- ===== src/MempoolSlpData/Totals.antt =====
-- The loops of `update_token_stats`, for an operation that adds up, as both `+` and `-` do.
use chronik.Prelude.{
  ℤ, pos, ◌+ℤ◌, ◌≡◌, ◌∙◌, ap, sym, Option, none, some, List, [], ◌∷◌, arith, zero_+ℤ, +ℤ_zero,
  if◌then◌else◌,
}
use chronik.Std.Ord.{◌==◌, ==_iff, nat_ord, int_ord}
use chronik.Slp.{TokenId, SlpToken, SlpTxType, SlpBurn, SlpValidTxData, SlpSpentOutput, TokenStats}
use chronik.MempoolSlpData.{
  MempoolSlpData, burn, mint_token, burn_computed, burn_inputs, mint_outputs, update_valid,
  update_token_stats,
}
use chronik.MempoolSlpData.Stats.{
  stats_of, sum, burn_of, input_of, output_of, minted_as, minted_by, burned_as, burned_by, tidy,
  update_token-stats,
}

-- The statistics are stored for exactly the tokens where they are not zero.
abbrev pub IsTidy : MempoolSlpData → Type 0
IsTidy s = (j : TokenId) → s.token_stats_delta j ≡ tidy (stats_of s j)

module _ (op : ℤ → ℤ → ℤ) (op_zero : (a : ℤ) → op a (pos 0) ≡ a)
    (op_assoc : (a b c : ℤ) → op (op a b) c ≡ op a (b +ℤ c)) where
  -- The statistics after a change of the two numbers.
  abbrev pub changed : TokenStats → ℤ → ℤ → TokenStats
  changed t m b = record { total_minted = op t.total_minted m; total_burned = op t.total_burned b }

  changed-none : (t : TokenStats) → changed t (pos 0) (pos 0) ≡ t
  changed-none t =
      ap (λ m. record { total_minted = m; total_burned = op t.total_burned (pos 0) })
        (op_zero t.total_minted)
      ∙ ap (λ b. record { total_minted = t.total_minted; total_burned = b })
          (op_zero t.total_burned)

  changed-changed :
      (t : TokenStats) (m b m' b' : ℤ)
      → changed (changed t m b) m' b' ≡ changed t (m +ℤ m') (b +ℤ b')
  changed-changed t m b m' b' =
      ap (λ x. record { total_minted = x; total_burned = op (op t.total_burned b) b' })
        (op_assoc t.total_minted m m')
      ∙ ap (λ x. record { total_minted = op t.total_minted (m +ℤ m'); total_burned = x })
          (op_assoc t.total_burned b b')

  burn-stats :
      (token_id : TokenId) (amount : ℤ) (s : MempoolSlpData) (j : TokenId)
      → stats_of (burn op token_id amount s) j
        ≡ changed (stats_of s j) (pos 0) (if j == token_id then amount else pos 0)
  unfolding burn
  burn-stats token_id amount s j = ground (
    arith,
    update_token-stats token_id (λ t. record t { total_burned = op t.total_burned amount }) s j,
    ==_iff j token_id,
    op_zero (stats_of s j).total_minted,
    changed-none (stats_of s j),
  )

  mint_token-stats :
      (token_id : TokenId) (amount : ℤ) (s : MempoolSlpData) (j : TokenId)
      → stats_of (mint_token op token_id amount s) j
        ≡ changed (stats_of s j) (if j == token_id then amount else pos 0) (pos 0)
  unfolding mint_token
  mint_token-stats token_id amount s j = ground (
    arith,
    update_token-stats token_id (λ t. record t { total_minted = op t.total_minted amount }) s j,
    ==_iff j token_id,
    op_zero (stats_of s j).total_burned,
    changed-none (stats_of s j),
  )

  -- A change after a change of one of the numbers.
  after_burn :
      (t t' : TokenStats) (b m' b' : ℤ)
      → t' ≡ changed t (pos 0) b
      → changed t' m' b' ≡ changed t m' (b +ℤ b')
  after_burn t t' b m' b' e =
      ap (λ u. changed u m' b') e
      ∙ changed-changed t (pos 0) b m' b'
      ∙ ap (λ m. changed t m (b +ℤ b')) (zero_+ℤ m')

  after_mint :
      (t t' : TokenStats) (m m' : ℤ)
      → t' ≡ changed t m (pos 0)
      → changed t' m' (pos 0) ≡ changed t (m +ℤ m') (pos 0)
  after_mint t t' m m' e =
      ap (λ u. changed u m' (pos 0)) e
      ∙ changed-changed t m (pos 0) m' (pos 0)
      ∙ ap (λ b. changed t (m +ℤ m') b) (zero_+ℤ (pos 0))

  burn_computed-stats :
      (burns : List (Option SlpBurn)) (s : MempoolSlpData) (j : TokenId)
      → stats_of (burn_computed op burns s) j
        ≡ changed (stats_of s j) (pos 0) (sum (burn_of j) burns)
  unfolding burn_computed
  burn_computed-stats [] s j = sym (changed-none (stats_of s j))
  burn_computed-stats (none ∷ burns) s j =
      burn_computed-stats burns s j
      ∙ ap (changed (stats_of s j) (pos 0)) (sym (zero_+ℤ (sum (burn_of j) burns)))
  burn_computed-stats (some b ∷ burns) s j =
      burn_computed-stats burns (burn op b.token_id b.token.amount s) j
      ∙ after_burn (stats_of s j) _ _ (pos 0) (sum (burn_of j) burns)
          (burn-stats b.token_id b.token.amount s j)

  burn_inputs-stats :
      (spent : List (Option SlpSpentOutput)) (s : MempoolSlpData) (j : TokenId)
      → stats_of (burn_inputs op spent s) j
        ≡ changed (stats_of s j) (pos 0) (sum (input_of j) spent)
  unfolding burn_inputs
  burn_inputs-stats [] s j = sym (changed-none (stats_of s j))
  burn_inputs-stats (none ∷ spent) s j =
      burn_inputs-stats spent s j
      ∙ ap (changed (stats_of s j) (pos 0)) (sym (zero_+ℤ (sum (input_of j) spent)))
  burn_inputs-stats (some o ∷ spent) s j =
      burn_inputs-stats spent (burn op o.token_id o.token.amount s) j
      ∙ after_burn (stats_of s j) _ _ (pos 0) (sum (input_of j) spent)
          (burn-stats o.token_id o.token.amount s j)

  mint_outputs-stats :
      (token_id : TokenId) (tokens : List SlpToken) (s : MempoolSlpData) (j : TokenId)
      → stats_of (mint_outputs op token_id tokens s) j
        ≡ changed (stats_of s j) (sum (output_of j token_id) tokens) (pos 0)
  unfolding mint_outputs
  mint_outputs-stats token_id [] s j = sym (changed-none (stats_of s j))
  mint_outputs-stats token_id (token ∷ tokens) s j =
      mint_outputs-stats token_id tokens (mint_token op token_id token.amount s) j
      ∙ after_mint (stats_of s j) _ _ (sum (output_of j token_id) tokens)
          (mint_token-stats token_id token.amount s j)

  -- Burned inputs, then minted outputs.
  burn_and_mint-stats :
      (token_id : TokenId) (tokens : List SlpToken) (spent : List (Option SlpSpentOutput))
      (s : MempoolSlpData) (j : TokenId)
      → stats_of (mint_outputs op token_id tokens (burn_inputs op spent s)) j
        ≡ changed (stats_of s j) (sum (output_of j token_id) tokens) (sum (input_of j) spent)
  burn_and_mint-stats token_id tokens spent s j =
      mint_outputs-stats token_id tokens (burn_inputs op spent s) j
      ∙ after_burn (stats_of s j) _ _ (sum (output_of j token_id) tokens) (pos 0)
          (burn_inputs-stats spent s j)
      ∙ ap (changed (stats_of s j) (sum (output_of j token_id) tokens))
          (+ℤ_zero (sum (input_of j) spent))

  update_valid-stats :
      (ty : SlpTxType) (slp : SlpValidTxData) (spent : List (Option SlpSpentOutput))
      (s : MempoolSlpData) (j : TokenId)
      → stats_of (update_valid op ty slp spent s) j
        ≡ changed (stats_of s j) (minted_as j slp.slp_tx_data ty) (burned_as j slp spent ty)
  update_valid-stats SlpTxType.send slp spent s j = burn_computed-stats slp.slp_burns s j
  update_valid-stats (SlpTxType.genesis info) slp spent s j =
      burn_and_mint-stats slp.slp_tx_data.token_id slp.slp_tx_data.output_tokens spent s j
  update_valid-stats SlpTxType.mint slp spent s j =
      burn_and_mint-stats slp.slp_tx_data.token_id slp.slp_tx_data.output_tokens spent s j
  update_valid-stats (SlpTxType.burn amount) slp spent s j = burn_inputs-stats spent s j
  update_valid-stats SlpTxType.unknown slp spent s j = burn_inputs-stats spent s j

  pub update_token_stats-stats :
      (slp : Option SlpValidTxData) (spent : List (Option SlpSpentOutput)) (s : MempoolSlpData)
      (j : TokenId)
      → stats_of (update_token_stats op slp spent s) j
        ≡ changed (stats_of s j) (minted_by j slp) (burned_by j slp spent)
  unfolding update_token_stats
  update_token_stats-stats none spent s j = burn_inputs-stats spent s j
  update_token_stats-stats (some slp) spent s j =
      update_valid-stats slp.slp_tx_data.slp_tx_type slp spent s j
