-- ===== src/SlpIndex/Accounting.antt =====
-- What a transaction adds to the amounts of a token, against the accounting of the mempool.
use chronik.Prelude.{
  ℤ, pos, ◌+ℤ◌, ◌≡◌, ◌≢◌, refl, ◌∙◌, ap, sym, Option, none, some, List, [], ◌∷◌, map, nat_eq,
  nat_eq_iff, arith, zero_+ℤ, +ℤ_zero, +ℤ_assoc, if◌then◌else◌, inl, inr, Bool-cases, ◌||◌, true,
}
use chronik.Std.Ord.{◌==◌, ==_iff, nat_ord}
use chronik.Std.HashMap.{unwrap_or}
use chronik.Slp.{TokenId, SlpToken, SlpTxType, SlpBurn, SlpValidTxData, SlpSpentOutput}
use chronik.MempoolSlpData
use chronik.MempoolSlpData.{MempoolSlpData}
use chronik.MempoolSlpData.Totals.{update_token_stats-stats}
use chronik.MempoolSlpData.Stats.{
  stats_of, sum, burn_of, input_of, output_of, minted_as, minted_by, burned_as, burned_by,
}
use chronik.Column.{find}
use chronik.SlpIndex.Entry.{null_token_id}
use chronik.SlpIndex.Supply.{
  SlpInputToken, Amounts, add_amount, Supply, is_zero, burn_token, add_burns, add_inputs,
  add_minted, supply_of_type, calc_token_supply_delta,
}

abbrev pub amount_of : TokenId → Amounts → ℤ
amount_of j m = unwrap_or (find j m) (pos 0)

-- What an input spends, as the writer sees it.
abbrev pub spent_token : Option SlpSpentOutput → Option SlpInputToken
spent_token none = none
spent_token (some o) = some (record { token_id = o.token_id; token = o.token })

pub find-add_amount :
    (id : TokenId) (a : ℤ) (m : Amounts) (j : TokenId)
    → find j (add_amount id a m) ≡ (if nat_eq j id then some (amount_of j m +ℤ a) else find j m)
unfolding add_amount
find-add_amount id a [] j = refl
find-add_amount id a ((k, v) ∷ m) j =
    ground (arith, find-add_amount id a m j, nat_eq_iff j id, nat_eq_iff j k, nat_eq_iff id k)

amount_of-add :
    (id : TokenId) (a : ℤ) (m : Amounts) (j : TokenId)
    → amount_of j (add_amount id a m) ≡ amount_of j m +ℤ (if j == id then a else pos 0)
amount_of-add id a m j =
    ground (arith, find-add_amount id a m j, nat_eq_iff j id, ==_iff j id, +ℤ_zero (amount_of j m))

is_zero_lem : (a : ℤ) → is_zero a ≡ true → a ≡ pos 0
is_zero_lem a h = ground (arith, h)

module _ (j : TokenId) where
  -- The amounts of the token grow by what is minted and burned.
  abbrev pub Grows : Supply → Supply → ℤ → ℤ → Type 0
  Grows s s' m b =
      (amount_of j s'.minted ≡ amount_of j s.minted +ℤ m)
      × (amount_of j s'.burned ≡ amount_of j s.burned +ℤ b)

  pub Grows-none : (s : Supply) → Grows s s (pos 0) (pos 0)
  Grows-none s = (sym (+ℤ_zero (amount_of j s.minted)), sym (+ℤ_zero (amount_of j s.burned)))

  pub Grows-trans :
      (s s' s'' : Supply) (m b m' b' : ℤ)
      → Grows s s' m b
      → Grows s' s'' m' b'
      → Grows s s'' (m +ℤ m') (b +ℤ b')
  Grows-trans s s' s'' m b m' b' g g' = (
    g'.0 ∙ ap (λ x. x +ℤ m') g.0 ∙ +ℤ_assoc (amount_of j s.minted) m m',
    g'.1 ∙ ap (λ x. x +ℤ b') g.1 ∙ +ℤ_assoc (amount_of j s.burned) b b',
  )

  -- A step that burns, and then others that burn; a step that mints, and then others that mint.
  after_burn :
      (s s' s'' : Supply) (b b' : ℤ)
      → Grows s s' (pos 0) b
      → Grows s' s'' (pos 0) b'
      → Grows s s'' (pos 0) (b +ℤ b')
  after_burn s s' s'' b b' g g' =
      let all = Grows-trans s s' s'' (pos 0) b (pos 0) b' g g' in
      (all.0 ∙ ap (λ x. amount_of j s.minted +ℤ x) (zero_+ℤ (pos 0)), all.1)

  after_mint :
      (s s' s'' : Supply) (m m' : ℤ)
      → Grows s s' m (pos 0)
      → Grows s' s'' m' (pos 0)
      → Grows s s'' (m +ℤ m') (pos 0)
  after_mint s s' s'' m m' g g' =
      let all = Grows-trans s s' s'' m (pos 0) m' (pos 0) g g' in
      (all.0, all.1 ∙ ap (λ x. amount_of j s.burned +ℤ x) (zero_+ℤ (pos 0)))

  skip_none : (s s' : Supply) (b : ℤ) → Grows s s' (pos 0) b → Grows s s' (pos 0) (pos 0 +ℤ b)
  skip_none s s' b g = (g.0, g.1 ∙ ap (λ x. amount_of j s.burned +ℤ x) (sym (zero_+ℤ b)))

  module _ (real : j ≢ null_token_id) where
    uncounted :
        (id : TokenId) (token : SlpToken)
        → (is_zero token.amount || nat_eq id null_token_id) ≡ true
        → (if j == id then token.amount else pos 0) ≡ pos 0
    uncounted id token h =
        ground (arith, is_zero_lem token.amount, nat_eq_iff id null_token_id, ==_iff j id, real, h)

    burn_token-Grows :
        (id : TokenId) (token : SlpToken) (s : Supply)
        → Grows s (burn_token id token s) (pos 0) (if j == id then token.amount else pos 0)
    unfolding burn_token
    burn_token-Grows id token s =
        elim (Bool-cases (is_zero token.amount || nat_eq id null_token_id)) [
          | inl e ↦ rw e (
            sym (+ℤ_zero (amount_of j s.minted)),
            sym (
                ap (λ x. amount_of j s.burned +ℤ x) (uncounted id token e)
                ∙ +ℤ_zero (amount_of j s.burned)),
          )
          | inr e ↦
              rw e (sym (+ℤ_zero (amount_of j s.minted)), amount_of-add id token.amount s.burned j)
        ]

    add_burns-Grows :
        (burns : List (Option SlpBurn)) (s : Supply)
        → Grows s (add_burns burns s) (pos 0) (sum (burn_of j) burns)
    unfolding add_burns
    add_burns-Grows [] s = Grows-none s
    add_burns-Grows (none ∷ burns) s =
        skip_none s _ (sum (burn_of j) burns) (add_burns-Grows burns s)
    add_burns-Grows (some b ∷ burns) s =
        after_burn s (burn_token b.token_id b.token s) _ _ (sum (burn_of j) burns)
          (burn_token-Grows b.token_id b.token s) (add_burns-Grows burns _)

    add_inputs-Grows :
        (spent : List (Option SlpSpentOutput)) (s : Supply)
        → Grows s (add_inputs (map spent_token spent) s) (pos 0) (sum (input_of j) spent)
    unfolding add_inputs
    add_inputs-Grows [] s = Grows-none s
    add_inputs-Grows (none ∷ spent) s =
        skip_none s _ (sum (input_of j) spent) (add_inputs-Grows spent s)
    add_inputs-Grows (some o ∷ spent) s =
        after_burn s (burn_token o.token_id o.token s) _ _ (sum (input_of j) spent)
          (burn_token-Grows o.token_id o.token s) (add_inputs-Grows spent _)

  add_minted-Grows :
      (id : TokenId) (tokens : List SlpToken) (s : Supply)
      → Grows s (add_minted id tokens s) (sum (output_of j id) tokens) (pos 0)
  unfolding add_minted
  add_minted-Grows id [] s = Grows-none s
  add_minted-Grows id (token ∷ tokens) s =
      let s' = record s { minted = add_amount id token.amount s.minted } in
      after_mint s s' _ _ (sum (output_of j id) tokens)
        (amount_of-add id token.amount s.minted j, sym (+ℤ_zero (amount_of j s.burned)))
        (add_minted-Grows id tokens s')

  -- The amounts that are counted for a token agree with the statistics that the mempool would keep.
  abbrev pub SameTotals : Supply → MempoolSlpData → Type 0
  SameTotals s m =
      (amount_of j s.minted ≡ (stats_of m j).total_minted)
      × (amount_of j s.burned ≡ (stats_of m j).total_burned)

  module _ (real : j ≢ null_token_id) where
    inputs_and_outputs :
        (id : TokenId) (tokens : List SlpToken) (spent : List (Option SlpSpentOutput)) (s : Supply)
        → Grows s
            (add_minted id tokens (add_inputs (map spent_token spent) s))
            (sum (output_of j id) tokens)
            (sum (input_of j) spent)
    inputs_and_outputs id tokens spent s =
        let s' = add_inputs (map spent_token spent) s in
        let all =
          Grows-trans s s' (add_minted id tokens s') _ _ _ _ (add_inputs-Grows real spent s)
            (add_minted-Grows id tokens s') in
        (
          all.0 ∙ ap (λ x. amount_of j s.minted +ℤ x) (zero_+ℤ (sum (output_of j id) tokens)),
          all.1 ∙ ap (λ x. amount_of j s.burned +ℤ x) (+ℤ_zero (sum (input_of j) spent)),
        )

    of_type-Grows :
        (ty : SlpTxType) (slp : SlpValidTxData) (spent : List (Option SlpSpentOutput)) (s : Supply)
        → Grows s
            (supply_of_type ty (map spent_token spent) slp s)
            (minted_as j slp.slp_tx_data ty)
            (burned_as j slp spent ty)
    of_type-Grows SlpTxType.send slp spent s = add_burns-Grows real slp.slp_burns s
    of_type-Grows (SlpTxType.genesis info) slp spent s =
        inputs_and_outputs slp.slp_tx_data.token_id slp.slp_tx_data.output_tokens spent s
    of_type-Grows SlpTxType.mint slp spent s =
        inputs_and_outputs slp.slp_tx_data.token_id slp.slp_tx_data.output_tokens spent s
    of_type-Grows (SlpTxType.burn n) slp spent s = add_inputs-Grows real spent s
    of_type-Grows SlpTxType.unknown slp spent s = add_inputs-Grows real spent s

    -- A transaction adds to the amounts of a token that is not the null token what it mints and burns
    -- of it by the accounting of the mempool.
    pub calc_token_supply_delta-Grows :
        (slp : Option SlpValidTxData) (spent : List (Option SlpSpentOutput)) (s : Supply)
        → Grows s
            (calc_token_supply_delta (map spent_token spent) slp s)
            (minted_by j slp)
            (burned_by j slp spent)
    unfolding calc_token_supply_delta
    calc_token_supply_delta-Grows none spent s = add_inputs-Grows real spent s
    calc_token_supply_delta-Grows (some slp) spent s =
        of_type-Grows slp.slp_tx_data.slp_tx_type slp spent s

    -- For every token but the null token, the amounts that a block's transaction adds are those that
    -- the mempool adds to its statistics for the same transaction with the same spent outputs.
    pub calc_token_supply_delta-SameTotals :
        (slp : Option SlpValidTxData) (spent : List (Option SlpSpentOutput)) (s : Supply)
        (m : MempoolSlpData)
        → SameTotals s m
        → SameTotals
            (calc_token_supply_delta (map spent_token spent) slp s)
            (MempoolSlpData.update_token_stats ◌+ℤ◌ slp spent m)
    calc_token_supply_delta-SameTotals slp spent s m h =
        let grown = calc_token_supply_delta-Grows slp spent s in
        let pool = update_token_stats-stats ◌+ℤ◌ +ℤ_zero +ℤ_assoc slp spent m j in
        (
          grown.0 ∙ ap (λ x. x +ℤ minted_by j slp) h.0 ∙ sym (ap (λ t. t.total_minted) pool),
          grown.1 ∙ ap (λ x. x +ℤ burned_by j slp spent) h.1 ∙ sym (ap (λ t. t.total_burned) pool),
        )
