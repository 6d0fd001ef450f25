-- ===== src/MempoolSlpData/Laws.antt =====
-- The insertion and the deletion of a transaction, on the SLP data of the mempool.
use chronik.Prelude.{
  ◌+ℤ◌, ◌-ℤ◌, +ℤ_zero, +ℤ_assoc, -ℤ_zero, -ℤ_assoc, ◌≡◌, refl, ◌∙◌, ap, false, Option, none, some,
  List, [], ◌∷◌, any, arith, if◌then◌else◌,
}
use chronik.Std.Ord.{◌==◌, ==_iff, nat_ord}
use chronik.Std.HashMap
use chronik.Chain.{Sha256d, TxInput, OutPoint}
use chronik.Slp.{
  TokenId, SlpValidTxData, SlpSpentOutput, SlpError, Checked, valid, invalid, SlpLib, SlpDb,
  is_ignored_error,
}
use chronik.MempoolSlpData.{
  MempoolSlpData, collect_spent_output, first_found, collect_inputs, insert_checked, delete_checked,
}
use chronik.MempoolSlpData.Stats.{stats_of, minted_by, burned_by}
use chronik.MempoolSlpData.Totals.{changed, update_token_stats-stats}
use chronik.MempoolSlpData.Keeps.{SlpTxs, update_token_stats-slp_txs}

-- The result of the check, and the error to keep, if any.
abbrev pub checked_data : Checked SlpValidTxData → Option SlpValidTxData
checked_data (valid slp) = some slp
checked_data (invalid e) = none

abbrev pub kept_error : Checked SlpValidTxData → Option SlpError
kept_error (valid slp) = none
kept_error (invalid e) = if is_ignored_error e then none else some e

module _ (lib : SlpLib) (txid : Sha256d) (spent : List (Option SlpSpentOutput)) where
  pub insert_checked-stats :
      (checked : Checked SlpValidTxData) (s : MempoolSlpData) (j : TokenId)
      → stats_of (insert_checked lib txid spent checked s) j
        ≡ changed ◌+ℤ◌ +ℤ_zero +ℤ_assoc
            (stats_of s j)
            (minted_by j (checked_data checked))
            (burned_by j (checked_data checked) spent)
  unfolding insert_checked
  insert_checked-stats (valid slp) s j =
      update_token_stats-stats ◌+ℤ◌ +ℤ_zero +ℤ_assoc (some slp) spent s j
  insert_checked-stats (invalid e) s j =
      ground arith ∙ update_token_stats-stats ◌+ℤ◌ +ℤ_zero +ℤ_assoc none spent s j

  pub insert_checked-slp_txs :
      (checked : Checked SlpValidTxData) (s : MempoolSlpData)
      → s.valid_slp_txs txid ≡ none
      → s.invalid_slp_txs txid ≡ none
      → (j : Sha256d)
      → ((insert_checked lib txid spent checked s).valid_slp_txs j
          ≡ (if j == txid then checked_data checked else s.valid_slp_txs j))
        × ((insert_checked lib txid spent checked s).invalid_slp_txs j
            ≡ (if j == txid then kept_error checked else s.invalid_slp_txs j))
  unfolding insert_checked
  insert_checked-slp_txs (valid slp) s v i j =
      let e = update_token_stats-slp_txs ◌+ℤ◌ (some slp) spent s in
      (
        ground (arith, ap (λ (m : SlpTxs). m.0 j) e),
        ground (arith, ap (λ (m : SlpTxs). m.1 j) e, ==_iff j txid),
      )
  insert_checked-slp_txs (invalid err) s v i j =
      let e = update_token_stats-slp_txs ◌+ℤ◌ none spent s in
      (
        ground (arith, ap (λ (m : SlpTxs). m.0 j) e, ==_iff j txid),
        ground (arith, ap (λ (m : SlpTxs). m.1 j) e, ==_iff j txid),
      )

module _ (txid : Sha256d) (spent : List (Option SlpSpentOutput)) (s : MempoolSlpData) where
  pub delete_checked-stats :
      (j : TokenId)
      → stats_of (delete_checked txid spent s) j
        ≡ changed ◌-ℤ◌ -ℤ_zero -ℤ_assoc
            (stats_of s j)
            (minted_by j (s.valid_slp_txs txid))
            (burned_by j (s.valid_slp_txs txid) spent)
  unfolding delete_checked
  delete_checked-stats j =
      update_token_stats-stats ◌-ℤ◌ -ℤ_zero -ℤ_assoc (s.valid_slp_txs txid) spent
        (record s { valid_slp_txs = HashMap.remove txid s.valid_slp_txs }) j

  pub delete_checked-slp_txs :
      (j : Sha256d)
      → ((delete_checked txid spent s).valid_slp_txs j
          ≡ (if j == txid then none else s.valid_slp_txs j))
        × ((delete_checked txid spent s).invalid_slp_txs j
            ≡ (if j == txid then none else s.invalid_slp_txs j))
  unfolding delete_checked
  delete_checked-slp_txs j =
      let e =
        update_token_stats-slp_txs ◌-ℤ◌ (s.valid_slp_txs txid) spent
          (record s { valid_slp_txs = HashMap.remove txid s.valid_slp_txs }) in
      (
        ap (λ (m : SlpTxs). m.0 j) e,
        ap (λ m. if j == txid then none else m j) (ap (λ (m : SlpTxs). m.1) e),
      )

-- Outputs of other transactions are found alike in both states.
module _ (db : SlpDb) (txid : Sha256d) (s t : MempoolSlpData)
    (agree : (j : Sha256d)
      → (j == txid) ≡ false
      → (s.valid_slp_txs j ≡ t.valid_slp_txs j) × (s.invalid_slp_txs j ≡ t.invalid_slp_txs j)) where
  collect_spent_output-agree :
      (o : OutPoint)
      → (o.txid == txid) ≡ false
      → collect_spent_output db s o ≡ collect_spent_output db t o
  unfolding collect_spent_output
  collect_spent_output-agree o h =
      ap (λ v. first_found db o v (s.invalid_slp_txs o.txid)) (agree o.txid h).0
      ∙ ap (first_found db o (t.valid_slp_txs o.txid)) (agree o.txid h).1

  pub collect_inputs-agree :
      (inputs : List TxInput)
      → any (λ input. input.prev_out.txid == txid) inputs ≡ false
      → collect_inputs db s inputs ≡ collect_inputs db t inputs
  unfolding collect_inputs
  collect_inputs-agree [] h = refl
  collect_inputs-agree (input ∷ inputs) h =
      let h0 : (input.prev_out.txid == txid) ≡ false = ground arith in
      let h1 : any (λ input'. input'.prev_out.txid == txid) inputs ≡ false = ground arith in
      rw (collect_spent_output-agree input.prev_out h0, collect_inputs-agree inputs h1)
