-- ===== src/MempoolData/KeyView.antt =====
-- The views of one key as Booleans, and what making and spending outputs does to them.
use chronik.Prelude.{
  ℕ, ℤ, ◌≡◌, refl, ◌∙◌, ap, Bool, true, false, not, ◌&&◌, ◌||◌, List, [], ◌∷◌, map, any, arith,
}
use chronik.Std.Ord.{◌==◌, ==_iff, nat_ord, int_ord, list_ord, pair_ord}
use chronik.Std.BTreeSet.{contains, Distinct}
use chronik.Chain.{Bytes, Sha256d, OutPoint, outpoint_ord, TxInput, TxOutput, Coin}
use chronik.ScriptPayload.{ScriptLib, payload_keys}
use chronik.ScriptPayload.Laws.{payload_keys-Distinct}
use chronik.MempoolData.Defs.{TimedTx, MempoolData}
use chronik.MempoolData.View.{in_history, inserted, deleted, run}

-- The three views of a key at one entry and one outpoint.
abbrev pub KeyView : Type 0
KeyView = Bool × (Bool × Bool)

module _ (q : Bytes) (x : TimedTx) (o : OutPoint) where
  abbrev pub key_view : MempoolData → KeyView
  key_view s = (in_history s q x, (inserted s q o, deleted s q o))

  -- Making, and spending, the outpoint `at` by the transaction `e` under `key`.
  abbrev pub make : TimedTx → OutPoint → Bytes → KeyView → KeyView
  make e at key (h, (i, d)) = ((q == key && x == e) || h, ((q == key && o == at) || i, d))

  abbrev pub spend : TimedTx → OutPoint → Bytes → KeyView → KeyView
  spend e at key (h, (i, d)) =
      let hit = q == key && o == at in
      ((q == key && x == e) || h, (not hit && i, d || (hit && not i)))

  -- Loops over the keys of one script.
  pub run-make :
      (e : TimedTx) (at : OutPoint) (keys : List Bytes) (h i d : Bool)
      → run (make e at) keys (h, (i, d))
        ≡ ((contains q keys && x == e) || h, ((contains q keys && o == at) || i, d))
  unfolding contains
  run-make e at [] h i d = refl
  run-make e at (k ∷ ks) h i d =
      run-make e at ks ((q == k && x == e) || h) ((q == k && o == at) || i) d ∙ ground arith

  pub run-spend :
      (e : TimedTx) (at : OutPoint) (keys : List Bytes) (h i d : Bool)
      → Distinct keys
      → run (spend e at) keys (h, (i, d)) ≡ (
        (contains q keys && x == e) || h,
        (not (contains q keys && o == at) && i, d || (contains q keys && o == at && not i)),
      )
  unfolding contains
  run-spend e at [] h i d distinct = ground arith
  run-spend e at (k ∷ ks) h i d distinct =
      run-spend e at ks ((q == k && x == e) || h) (not (q == k && o == at) && i)
        (d || (q == k && o == at && not i)) distinct.1
      ∙ ground (arith, ==_iff q k, distinct.0)

abbrev pub prev_outs : List (ℕ × (TxInput × Coin)) → List OutPoint
prev_outs = map (λ item. item.1.0.prev_out)

module _ (lib : ScriptLib) (q : Bytes) where
  -- The script of the output, or of the spent output, has the key.
  abbrev pub names_output : ℕ × TxOutput → Bool
  names_output item = contains q (payload_keys lib item.1.script)

  abbrev pub names_input : ℕ × (TxInput × Coin) → Bool
  names_input item = contains q (payload_keys lib item.1.1.tx_output.script)

  -- The output is `o` and has the key; the input spends `o`, which has the key.
  abbrev pub makes : OutPoint → Sha256d → ℕ × TxOutput → Bool
  makes o txid item = names_output item && o == record { txid = txid; out_idx = item.0 }

  abbrev pub spends : OutPoint → ℕ × (TxInput × Coin) → Bool
  spends o item = names_input item && o == item.1.0.prev_out

module _ (lib : ScriptLib) (txid : Sha256d) (time : ℤ) (q : Bytes) (x : TimedTx)
    (o : OutPoint) where
  unfoldable pub make_output : ℕ × TxOutput → KeyView → KeyView
  make_output (out_idx, output) =
      run (make q x o (time, txid) (record { txid = txid; out_idx = out_idx }))
        (payload_keys lib output.script)

  unfoldable pub spend_input : ℕ × (TxInput × Coin) → KeyView → KeyView
  spend_input (input_idx, (input, coin)) =
      run (spend q x o (time, txid) input.prev_out) (payload_keys lib coin.tx_output.script)

  pub run-make_output :
      (items : List (ℕ × TxOutput)) (h i d : Bool)
      → run make_output items (h, (i, d)) ≡ (
        (any (names_output lib q) items && x == (time, txid)) || h,
        (any (makes lib q o txid) items || i, d),
      )
  unfolding make_output
  run-make_output [] h i d = refl
  run-make_output ((n, output) ∷ items) h i d =
      ap (run make_output items) (
        run-make q x o (time, txid) (record { txid = txid; out_idx = n })
          (payload_keys lib output.script) h i d)
      ∙ run-make_output items _ _ _
      ∙ ground arith

  pub spends_none :
      (at : OutPoint) (items : List (ℕ × (TxInput × Coin)))
      → contains at (prev_outs items) ≡ false
      → (o == at) ≡ true
      → any (spends lib q o) items ≡ false
  unfolding contains
  spends_none at [] h e = refl
  spends_none at (item ∷ items) h e = ground (arith, spends_none at items, ==_iff o at)

  pub run-spend_input :
      (items : List (ℕ × (TxInput × Coin))) (h i d : Bool)
      → Distinct (prev_outs items)
      → run spend_input items (h, (i, d)) ≡ (
        (any (names_input lib q) items && x == (time, txid)) || h,
        (not (any (spends lib q o) items) && i, d || (any (spends lib q o) items && not i)),
      )
  unfolding spend_input
  run-spend_input [] h i d distinct = ground arith
  run-spend_input ((n, (input, coin)) ∷ items) h i d distinct =
      ap (run spend_input items) (
        run-spend q x o (time, txid) input.prev_out (payload_keys lib coin.tx_output.script) h i d
          (payload_keys-Distinct lib coin.tx_output.script))
      ∙ run-spend_input items _ _ _ distinct.1
      ∙ ground (arith, spends_none input.prev_out items distinct.0)
