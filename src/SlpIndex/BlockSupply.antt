-- ===== src/SlpIndex/BlockSupply.antt =====
-- The amounts of a block, as sums over its transactions of what each mints and burns.
use chronik.Prelude.{
  ℕ, ◌+◌, ℤ, pos, ◌≡◌, ◌≢◌, refl, ◌∙◌, ap, sym, subst, true, false, ◌||◌, Option, none, List, [],
  ◌∷◌, ◌++◌, map, any, any-append, All, nat_eq, nat_eq_iff, arith, Bool-cases, inl, inr,
}
use chronik.Std.HashMap.{HashMap}
use chronik.Chain.{UnhashedTx}
use chronik.Slp.{TokenId, TxNum, SlpValidTxData, SlpSpentOutput}
use chronik.MempoolSlpData.Stats.{sum, minted_by, burned_by}
use chronik.Column.{find}
use chronik.SlpIndex.Entry.{SlpResult, ok, ◌>>=◌, null_token_id}
use chronik.SlpIndex.Supply.{
  Amounts, Supply, slp_token_inputs, calc_token_supply_delta, block_supply, unique_ids,
  stats_token_ids,
}
use chronik.SlpIndex.Accounting.{
  spent_token, Grows, Grows-none, Grows-trans, calc_token_supply_delta-Grows,
}

ok_same : {A : Type 0} {a b : A} → ◌≡◌ {A = SlpResult A} (ok a) (ok b) → a ≡ b
ok_same h = ground (arith, h)

-- `spent` has, for each transaction, the tokens that its inputs spend.
module _ (first_tx_num : TxNum) (valid_txs : HashMap TxNum SlpValidTxData)
    (input_tx_nums : List (List TxNum)) (outputs : List (List (Option SlpSpentOutput)))
    (spent : ℕ → List (Option SlpSpentOutput)) where
  abbrev pub Spends : ℕ × UnhashedTx → Type 0
  Spends (tx_idx, tx) =
      slp_token_inputs valid_txs input_tx_nums outputs tx_idx tx
      ≡ ok (map spent_token (spent tx_idx))

  module _ (j : TokenId) where
    -- What the transactions mint and burn of the token.
    abbrev pub minted_in : List (ℕ × UnhashedTx) → ℤ
    minted_in = sum (λ item. minted_by j (valid_txs (first_tx_num + item.0)))

    abbrev pub burned_in : List (ℕ × UnhashedTx) → ℤ
    burned_in = sum (λ item. burned_by j (valid_txs (first_tx_num + item.0)) (spent item.0))

    pub block_supply-Grows :
        (items : List (ℕ × UnhashedTx)) (s s' : Supply)
        → j ≢ null_token_id
        → All Spends items
        → block_supply first_tx_num valid_txs input_tx_nums outputs items s ≡ ok s'
        → Grows j s s' (minted_in items) (burned_in items)
    unfolding block_supply
    block_supply-Grows [] s s' real all h =
        subst (λ u. Grows j s u (pos 0) (pos 0)) (ok_same h) (Grows-none j s)
    block_supply-Grows ((tx_idx, tx) ∷ items) s s' real (e, all) h =
        let slp = valid_txs (first_tx_num + tx_idx) in
        let next = calc_token_supply_delta (map spent_token (spent tx_idx)) slp s in
        Grows-trans j s next s' (minted_by j slp) (burned_by j slp (spent tx_idx)) (minted_in items)
          (burned_in items) (calc_token_supply_delta-Grows j real slp (spent tx_idx) s)
          (block_supply-Grows items next s' real all (
            ap
              (λ r. r >>= λ inputs.
                block_supply first_tx_num valid_txs input_tx_nums outputs items
                  (calc_token_supply_delta inputs slp s))
              (sym e)
            ∙ h))

-- The tokens of the statistics are those that have an amount.
any_unique :
    (id : TokenId) (xs : List TokenId) → any (nat_eq id) (unique_ids xs) ≡ any (nat_eq id) xs
any_unique id [] = refl
any_unique id (x ∷ xs) = elim (Bool-cases (any (nat_eq x) xs)) [
  | inl old ↦ rw old (any_unique id xs ∙ listed x old)
  | inr new ↦ rw new (ap (λ b. nat_eq id x || b) (any_unique id xs))
]
  where
    listed :
        (x : TokenId)
        → any (nat_eq x) xs ≡ true
        → any (nat_eq id) xs ≡ (nat_eq id x || any (nat_eq id) xs)
    listed x old = elim (Bool-cases (nat_eq id x)) [
      | inl e ↦ rw e (subst (λ k. any (nat_eq k) xs ≡ true) (sym ((nat_eq_iff id x).0 e)) old)
      | inr ne ↦ rw ne
    ]

no_amount :
    (id : TokenId) (m : Amounts) → any (nat_eq id) (map (λ e. e.0) m) ≡ false → find id m ≡ none
no_amount id [] h = refl
no_amount id ((k, v) ∷ m) h = ground (arith, h, no_amount id m)

pub uncounted-find :
    (id : TokenId) (s : Supply)
    → any (nat_eq id) (stats_token_ids s) ≡ false
    → (find id s.minted ≡ none) × (find id s.burned ≡ none)
uncounted-find id s h =
    let both : (any (nat_eq id) (map (λ e. e.0) s.burned)
          || any (nat_eq id) (map (λ e. e.0) s.minted))
        ≡ false =
      sym (any-append (nat_eq id) (map (λ e. e.0) s.burned) (map (λ e. e.0) s.minted))
      ∙ sym (any_unique id (map (λ e. e.0) s.burned ++ map (λ e. e.0) s.minted))
      ∙ h in
    (no_amount id s.minted (ground arith), no_amount id s.burned (ground arith))
