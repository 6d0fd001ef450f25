-- ===== src/MempoolSlpData/Stats.antt =====
-- What `update_token_stats` does to the statistics of each token, in closed form.
use chronik.Prelude.{
  ℤ, pos, ◌+ℤ◌, ◌≡◌, refl, ◌∙◌, ap, sym, Bool, true, false, Option, none, some, List, [], ◌∷◌,
  arith, if◌then◌else◌,
}
use chronik.Std.Ord.{◌==◌, ==_iff, nat_ord, int_ord}
use chronik.Std.HashMap.{unwrap_or}
use chronik.Slp.{
  TokenId, SlpToken, SlpTxType, SlpTxData, SlpBurn, SlpValidTxData, SlpSpentOutput, TokenStats,
}
use chronik.MempoolSlpData.{MempoolSlpData, no_stats, is_default, update_token}

-- The change of a token's statistics; nothing is stored for no change.
abbrev pub stats_of : MempoolSlpData → TokenId → TokenStats
stats_of s j = unwrap_or (s.token_stats_delta j) no_stats

abbrev pub sum : {X : Type 0} → (X → ℤ) → List X → ℤ
sum f [] = pos 0
sum f (x ∷ xs) = f x +ℤ sum f xs

-- What an item adds to the amounts of the token `j`.
abbrev pub burn_of : TokenId → Option SlpBurn → ℤ
burn_of j none = pos 0
burn_of j (some b) = if j == b.token_id then b.token.amount else pos 0

abbrev pub input_of : TokenId → Option SlpSpentOutput → ℤ
input_of j none = pos 0
input_of j (some o) = if j == o.token_id then o.token.amount else pos 0

abbrev pub output_of : TokenId → TokenId → SlpToken → ℤ
output_of j token_id token = if j == token_id then token.amount else pos 0

abbrev pub minted_as : TokenId → SlpTxData → SlpTxType → ℤ
minted_as j d (SlpTxType.genesis info) = sum (output_of j d.token_id) d.output_tokens
minted_as j d SlpTxType.mint = sum (output_of j d.token_id) d.output_tokens
minted_as j d SlpTxType.send = pos 0
minted_as j d (SlpTxType.burn amount) = pos 0
minted_as j d SlpTxType.unknown = pos 0

-- What a transaction mints of the token: GENESIS and MINT mint their outputs.
abbrev pub minted_by : TokenId → Option SlpValidTxData → ℤ
minted_by j none = pos 0
minted_by j (some slp) = minted_as j slp.slp_tx_data slp.slp_tx_data.slp_tx_type

abbrev pub burned_as : TokenId → SlpValidTxData → List (Option SlpSpentOutput) → SlpTxType → ℤ
burned_as j slp spent SlpTxType.send = sum (burn_of j) slp.slp_burns
burned_as j slp spent (SlpTxType.genesis info) = sum (input_of j) spent
burned_as j slp spent SlpTxType.mint = sum (input_of j) spent
burned_as j slp spent (SlpTxType.burn amount) = sum (input_of j) spent
burned_as j slp spent SlpTxType.unknown = sum (input_of j) spent

-- What it burns: a valid SEND the burns computed for it, any other all that it spends.
abbrev pub burned_by : TokenId → Option SlpValidTxData → List (Option SlpSpentOutput) → ℤ
burned_by j none spent = sum (input_of j) spent
burned_by j (some slp) spent = burned_as j slp spent slp.slp_tx_data.slp_tx_type

is_default-no_stats : (t : TokenStats) → is_default t ≡ true → t ≡ no_stats
is_default-no_stats t h =
    let e : t.total_minted ≡ pos 0 = ground (arith, ==_iff t.total_minted (pos 0)) in
    let e' : t.total_burned ≡ pos 0 = ground (arith, ==_iff t.total_burned (pos 0)) in
    ap (λ m. record { total_minted = m; total_burned = t.total_burned }) e
    ∙ ap (λ b. record { total_minted = pos 0; total_burned = b }) e'

-- Statistics at zero are not stored.
abbrev pub tidy : TokenStats → Option TokenStats
tidy t = if is_default t then none else some t

pub tidy-stats : (t : TokenStats) → unwrap_or (tidy t) no_stats ≡ t
tidy-stats t = of_test (is_default t) refl
  where
    of_test : (b : Bool) → is_default t ≡ b → unwrap_or (if b then none else some t) no_stats ≡ t
    of_test true h = sym (is_default-no_stats t h)
    of_test false h = refl

module _ (token_id : TokenId) (f : TokenStats → TokenStats) (s : MempoolSlpData) where
  pub update_token-delta :
      (j : TokenId)
      → (update_token token_id f s).token_stats_delta j
        ≡ (if j == token_id then tidy (f (stats_of s token_id)) else s.token_stats_delta j)
  unfolding update_token
  update_token-delta j = ground arith

  pub update_token-stats :
      (j : TokenId)
      → stats_of (update_token token_id f s) j
        ≡ (if j == token_id then f (stats_of s token_id) else stats_of s j)
  update_token-stats j =
      ap (λ d. unwrap_or d no_stats) (update_token-delta j)
      ∙ ground (arith, tidy-stats (f (stats_of s token_id)))
