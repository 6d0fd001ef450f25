-- ===== src/MempoolData/KeyUndo.antt =====
-- The views of one key as Booleans, and what taking outputs back and unspending them does to them.
use chronik.Prelude.{
  ℕ, ◌+◌, ◌<◌, ℤ, ◌≡◌, refl, ◌∙◌, ap, Bool, true, false, not, ◌&&◌, ◌||◌, List, [], ◌∷◌, any, arith,
}
use chronik.Std.Ord.{◌==◌, ==_iff, nat_ord, int_ord, list_ord, pair_ord}
use chronik.Std.BTreeSet.{contains, Distinct}
use chronik.Chain.{Bytes, Sha256d, OutPoint, outpoint_ord, TxInput, TxOutput, Coin}
use chronik.ScriptPayload.{ScriptLib, payload_keys}
use chronik.ScriptPayload.Laws.{payload_keys-Distinct}
use chronik.MempoolData.Defs.{TimedTx, MempoolDeleteMode, enumerate}
use chronik.MempoolData.View.{run}
use chronik.MempoolData.KeyView.{
  KeyView, prev_outs, names_output, names_input, makes, spends, spends_none,
}

-- An outpoint that leaves the mempool in this mode joins the deletes if it was not inserted.
abbrev pub joins : MempoolDeleteMode → Bool → Bool
joins MempoolDeleteMode.remove i = false
joins MempoolDeleteMode.mined i = not i

module _ (q : Bytes) (x : TimedTx) (o : OutPoint) where
  -- Unspending, and taking back, the outpoint `at` of the transaction `e` under `key`.
  abbrev pub unspend : TimedTx → OutPoint → Bytes → KeyView → KeyView
  unspend e at key (h, (i, d)) =
      let hit = q == key && o == at in
      (not (q == key && x == e) && h, (i || (hit && not d), not hit && d))

  abbrev pub unmake : MempoolDeleteMode → TimedTx → OutPoint → Bytes → KeyView → KeyView
  unmake MempoolDeleteMode.remove e at key (h, (i, d)) =
      (not (q == key && x == e) && h, (not (q == key && o == at) && i, d))
  unmake MempoolDeleteMode.mined e at key (h, (i, d)) =
      let hit = q == key && o == at in
      (not (q == key && x == e) && h, (not hit && i, d || (hit && not i)))

  pub run-unspend :
      (e : TimedTx) (at : OutPoint) (keys : List Bytes) (h i d : Bool)
      → Distinct keys
      → run (unspend e at) keys (h, (i, d)) ≡ (
        not (contains q keys && x == e) && h,
        (i || (contains q keys && o == at && not d), not (contains q keys && o == at) && d),
      )
  unfolding contains
  run-unspend e at [] h i d distinct = ground arith
  run-unspend e at (k ∷ ks) h i d distinct =
      run-unspend e at ks (not (q == k && x == e) && h) (i || (q == k && o == at && not d))
        (not (q == k && o == at) && d) distinct.1
      ∙ ground (arith, ==_iff q k, distinct.0)

  pub run-unmake :
      (mode : MempoolDeleteMode) (e : TimedTx) (at : OutPoint) (keys : List Bytes) (h i d : Bool)
      → Distinct keys
      → run (unmake mode e at) keys (h, (i, d)) ≡ (
        not (contains q keys && x == e) && h,
        (not (contains q keys && o == at) && i, d || (contains q keys && o == at && joins mode i)),
      )
  unfolding contains
  run-unmake MempoolDeleteMode.remove e at [] h i d distinct = ground arith
  run-unmake MempoolDeleteMode.mined e at [] h i d distinct = ground arith
  run-unmake MempoolDeleteMode.remove e at (k ∷ ks) h i d distinct =
      run-unmake MempoolDeleteMode.remove e at ks (not (q == k && x == e) && h)
        (not (q == k && o == at) && i) d distinct.1
      ∙ ground (arith, ==_iff q k, distinct.0)
  run-unmake MempoolDeleteMode.mined e at (k ∷ ks) h i d distinct =
      run-unmake MempoolDeleteMode.mined e at ks (not (q == k && x == e) && h)
        (not (q == k && o == at) && i) (d || (q == k && o == at && not i)) distinct.1
      ∙ ground (arith, ==_iff q k, distinct.0)

module _ (lib : ScriptLib) (txid : Sha256d) (time : ℤ) (q : Bytes) (x : TimedTx)
    (o : OutPoint) where
  unfoldable pub unspend_input : ℕ × (TxInput × Coin) → KeyView → KeyView
  unspend_input (idx, (input, coin)) =
      run (unspend q x o (time, txid) input.prev_out) (payload_keys lib coin.tx_output.script)

  unfoldable pub unmake_output : MempoolDeleteMode → ℕ × TxOutput → KeyView → KeyView
  unmake_output mode (out_idx, output) =
      run (unmake q x o mode (time, txid) (record { txid = txid; out_idx = out_idx }))
        (payload_keys lib output.script)

  pub run-unspend_input :
      (items : List (ℕ × (TxInput × Coin))) (h i d : Bool)
      → Distinct (prev_outs items)
      → run unspend_input items (h, (i, d)) ≡ (
        not (any (names_input lib q) items && x == (time, txid)) && h,
        (i || (any (spends lib q o) items && not d), not (any (spends lib q o) items) && d),
      )
  unfolding unspend_input
  run-unspend_input [] h i d distinct = ground arith
  run-unspend_input ((n, (input, coin)) ∷ items) h i d distinct =
      ap (run unspend_input items) (
        run-unspend q x o (time, txid) input.prev_out (payload_keys lib coin.tx_output.script) h i d
          (payload_keys-Distinct lib coin.tx_output.script))
      ∙ run-unspend_input items _ _ _ distinct.1
      ∙ ground (arith, spends_none lib txid time q x o input.prev_out items distinct.0)

  -- The outputs from index `m` on do not make an outpoint with a lower index.
  makes_none :
      (m n : ℕ) (outputs : List TxOutput)
      → n < m
      → (o == record { txid = txid; out_idx = n }) ≡ true
      → any (makes lib q o txid) (enumerate m outputs) ≡ false
  makes_none m n [] lt e = refl
  makes_none m n (output ∷ outputs) lt e = ground (
    arith,
    makes_none (m + 1) n outputs (omega arith) e,
    ==_iff o (record { txid = txid; out_idx = n }),
    ==_iff o (record { txid = txid; out_idx = m }),
  )

  pub run-unmake_output :
      (mode : MempoolDeleteMode) (m : ℕ) (outputs : List TxOutput) (h i d : Bool)
      → run (unmake_output mode) (enumerate m outputs) (h, (i, d)) ≡ (
        not (any (names_output lib q) (enumerate m outputs) && x == (time, txid)) && h,
        (
          not (any (makes lib q o txid) (enumerate m outputs)) && i,
          d || (any (makes lib q o txid) (enumerate m outputs) && joins mode i),
        ),
      )
  unfolding unmake_output
  run-unmake_output mode m [] h i d = ground arith
  run-unmake_output mode m (output ∷ outputs) h i d =
      ap (run (unmake_output mode) (enumerate (m + 1) outputs)) (
        run-unmake q x o mode (time, txid) (record { txid = txid; out_idx = m })
          (payload_keys lib output.script) h i d (payload_keys-Distinct lib output.script))
      ∙ run-unmake_output mode (m + 1) outputs _ _ _
      ∙ ground (arith, makes_none (m + 1) m outputs (omega arith))
