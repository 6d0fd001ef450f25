-- ===== src/MempoolData/DeleteSpec.antt =====
-- How a successful `delete_mempool_tx` changes the views, step by step.
use chronik.Prelude.{ℕ, ℤ, ◌≡◌, ap, not, ◌&&◌, ◌||◌, List, arith, Option-cases, inl, inr}
use chronik.Std.Ord.{◌==◌, ==_iff, nat_ord, int_ord, list_ord, pair_ord}
use chronik.Std.BTreeSet.{contains, contains-insert, contains-remove}
use chronik.Chain.{Bytes, Sha256d, OutPoint, outpoint_ord, TxInput, TxOutput, UnhashedTx, Coin}
use chronik.ScriptPayload.{ScriptLib, payload_keys}
use chronik.MempoolData.Defs.{
  UtxoDelta, TimedTx, Spend, MempoolTxEntry, MempoolData, MempoolDeleteMode, ok, for_each, delta_of,
  enumerate, zip, ◌>>◌,
}
use chronik.MempoolData.Delete.{
  unspend_delta, delete_input_key, remove_spend, delete_spend, delete_output_key, delete_input,
  delete_output, delete_entry,
}
use chronik.MempoolData.View.{
  in_history, inserted, deleted, run, fail_if-ok, if-ok, >>-view, for_each-view, in_history-remove,
  in_history-tidy, inserted-tidy, deleted-tidy,
}
use chronik.MempoolData.KeyView.{key_view}
use chronik.MempoolData.KeyUndo.{unspend, unmake, unspend_input, unmake_output}
use chronik.MempoolData.InsertSpec.{spend_delta-view}

-- The outpoint is gone from the deletes; it joins the inserts if it was not there.
unspend_delta-view :
    (at o : OutPoint) (d : UtxoDelta)
    → (contains o (unspend_delta at d).inserts
        ≡ (contains o d.inserts || (o == at && not (contains o d.deletes))))
      × (contains o (unspend_delta at d).deletes ≡ (not (o == at) && contains o d.deletes))
unfolding unspend_delta
unspend_delta-view at o d =
    ground (arith, ==_iff o at, contains-insert at o d.inserts, contains-remove at o d.deletes)

module _ (q : Bytes) (x : TimedTx) (o : OutPoint) where
  delete_input_key-view :
      (e : TimedTx) (at : OutPoint) (key : Bytes) (s s' : MempoolData)
      → delete_input_key e at key s ≡ ok tt s'
      → key_view q x o s' ≡ unspend q x o e at key (key_view q x o s)
  unfolding delete_input_key
  delete_input_key-view e at key s s' h = rw (fail_if-ok _ _ h) (
      rw (in_history-tidy, in_history-remove, inserted-tidy, deleted-tidy)
        (unfold inserted deleted in
          ground (arith, ==_iff q key, unspend_delta-view at o (delta_of s key))))

  delete_output_key-view :
      (mode : MempoolDeleteMode) (e : TimedTx) (at : OutPoint) (key : Bytes) (s s' : MempoolData)
      → delete_output_key mode e at key s ≡ ok tt s'
      → key_view q x o s' ≡ unmake q x o mode e at key (key_view q x o s)
  unfolding delete_output_key
  delete_output_key-view MempoolDeleteMode.mined e at key s s' h = rw (fail_if-ok _ _ h) (
      rw (in_history-tidy, in_history-remove, inserted-tidy, deleted-tidy)
        (unfold inserted deleted in
          ground (arith, ==_iff q key, spend_delta-view at o (delta_of s key))))
  delete_output_key-view MempoolDeleteMode.remove e at key s s' h = rw (if-ok _ _ _ _ h).1 (
      rw (in_history-tidy, in_history-remove, inserted-tidy, deleted-tidy)
        (unfold inserted deleted in
          ground (arith, ==_iff q key, contains-remove at o (delta_of s key).inserts)))

  remove_spend-view :
      (txid : Sha256d) (idx : ℕ) (at : OutPoint) (spends : List Spend) (s s' : MempoolData)
      → remove_spend txid idx at spends s ≡ ok tt s'
      → key_view q x o s' ≡ key_view q x o s
  unfolding remove_spend in_history inserted deleted
  remove_spend-view txid idx at spends s s' h = rw (if-ok _ _ _ _ h).1

  delete_spend-view :
      (txid : Sha256d) (idx : ℕ) (at : OutPoint) (s s' : MempoolData)
      → delete_spend txid idx at s ≡ ok tt s'
      → key_view q x o s' ≡ key_view q x o s
  unfolding delete_spend
  delete_spend-view txid idx at s s' h = elim (Option-cases (s.spends at.txid)) [
    | inl e ↦ ground arith
    | inr (spends, e) ↦ remove_spend-view txid idx at spends s s' (rw (e, delete_spend) at h)
  ]

  module _ (lib : ScriptLib) (txid : Sha256d) (time : ℤ) where
    delete_input-view :
        (item : ℕ × (TxInput × Coin)) (s s' : MempoolData)
        → delete_input lib txid time item s ≡ ok tt s'
        → key_view q x o s' ≡ unspend_input lib txid time q x o item (key_view q x o s)
    unfolding delete_input unspend_input
    delete_input-view (n, (input, coin)) =
        >>-view (key_view q x o)
          (for_each (delete_input_key (time, txid) input.prev_out)
            (payload_keys lib coin.tx_output.script))
          (delete_spend txid n input.prev_out)
          (unspend_input lib txid time q x o (n, (input, coin))) (λ w. w)
          (for_each-view (key_view q x o) _ (unspend q x o (time, txid) input.prev_out)
            (delete_input_key-view (time, txid) input.prev_out)
            (payload_keys lib coin.tx_output.script))
          (λ _. delete_spend-view txid n input.prev_out) tt

    delete_output-view :
        (mode : MempoolDeleteMode) (item : ℕ × TxOutput) (s s' : MempoolData)
        → delete_output lib mode txid time item s ≡ ok tt s'
        → key_view q x o s' ≡ unmake_output lib txid time q x o mode item (key_view q x o s)
    unfolding delete_output unmake_output
    delete_output-view mode (n, output) =
        for_each-view (key_view q x o) _ _
          (delete_output_key-view mode (time, txid) (record { txid = txid; out_idx = n }))
          (payload_keys lib output.script)

  pub delete_entry-view :
      (lib : ScriptLib) (mode : MempoolDeleteMode) (txid : Sha256d) (entry : MempoolTxEntry)
      (tx : UnhashedTx) (s s' : MempoolData)
      → delete_entry lib mode txid entry s ≡ ok tx s'
      → key_view q x o s'
        ≡ run
            (unmake_output lib txid entry.time_first_seen q x o mode)
            (enumerate 0 entry.tx.outputs)
            (run
              (unspend_input lib txid entry.time_first_seen q x o)
              (enumerate 0 (zip entry.tx.inputs entry.spent_coins))
              (key_view q x o s))
  unfolding delete_entry
  delete_entry-view lib mode txid entry tx s s' h =
      >>-view (key_view q x o) (for_each (delete_input lib txid time) inputs)
        (for_each (delete_output lib mode txid time) outputs >> λ t. ok entry.tx t)
        (run (unspend_input lib txid time q x o) inputs)
        (run (unmake_output lib txid time q x o mode) outputs)
        (for_each-view (key_view q x o) _ (unspend_input lib txid time q x o)
          (delete_input-view lib txid time) inputs)
        (>>-view (key_view q x o) (for_each (delete_output lib mode txid time) outputs)
          (λ t. ok entry.tx t) (run (unmake_output lib txid time q x o mode) outputs) (λ w. w)
          (for_each-view (key_view q x o) _ (unmake_output lib txid time q x o mode)
            (delete_output-view lib txid time mode) outputs)
          (λ b t t' k. ap (key_view q x o) (ground arith)))
        tx s s' h
    where
      open entry use {time_first_seen as time}

      outputs : List (ℕ × TxOutput)
      outputs = enumerate 0 entry.tx.outputs

      inputs : List (ℕ × (TxInput × Coin))
      inputs = enumerate 0 (zip entry.tx.inputs entry.spent_coins)
