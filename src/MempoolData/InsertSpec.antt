-- ===== src/MempoolData/InsertSpec.antt =====
-- What a successful `insert_mempool_tx` does to each index.
use chronik.Prelude.{ℕ, ℤ, ◌≡◌, not, ◌&&◌, ◌||◌, List, [], arith}
use chronik.Std.Ord.{◌==◌, ==_iff, nat_ord, int_ord, list_ord, pair_ord}
use chronik.Std.BTreeSet.{contains, contains-insert, contains-remove}
use chronik.Std.HashMap.{unwrap_or}
use chronik.Chain.{Bytes, Sha256d, OutPoint, outpoint_ord, TxInput, TxOutput, UnhashedTx, Coin}
use chronik.ScriptPayload.{ScriptLib, payload_keys}
use chronik.MempoolData.Defs.{
  UtxoDelta, TimedTx, MempoolTxEntry, MempoolData, ok, for_each, delta_of, enumerate, zip, ◌>>◌,
}
use chronik.MempoolData.Insert.{
  insert_output_key, insert_input_key, insert_spend, insert_output, insert_input, insert_entry,
  insert_mempool_tx, spend_delta,
}
use chronik.MempoolData.KeyView.{key_view, make, spend, make_output, spend_input}
use chronik.MempoolData.View.{
  in_history, inserted, deleted, run, fail_if-ok, >>-view, for_each-view, in_history-add,
  in_history-tidy, inserted-tidy, deleted-tidy,
}

-- The outpoint that is spent is gone from the inserts; it joins the deletes if it was not there.
pub spend_delta-view :
    (at o : OutPoint) (d : UtxoDelta)
    → (contains o (spend_delta at d).inserts ≡ (not (o == at) && contains o d.inserts))
      × (contains o (spend_delta at d).deletes
          ≡ (contains o d.deletes || (o == at && not (contains o d.inserts))))
unfolding spend_delta
spend_delta-view at o d =
    ground (arith, ==_iff o at, contains-insert at o d.deletes, contains-remove at o d.inserts)

module _ (q : Bytes) (x : TimedTx) (o : OutPoint) where
  insert_output_key-view :
      (time : ℤ) (at : OutPoint) (key : Bytes) (s s' : MempoolData)
      → insert_output_key time at key s ≡ ok tt s'
      → key_view q x o s' ≡ make q x o (time, at.txid) at key (key_view q x o s)
  unfolding insert_output_key in_history inserted deleted
  insert_output_key-view time at key s s' h = rw (fail_if-ok _ _ h) (
      ground (
        arith,
        ==_iff q key,
        contains-insert (time, at.txid) x (unwrap_or (s.script_txs key) []),
        contains-insert at o (delta_of s key).inserts,
      ))

  insert_input_key-view :
      (e : TimedTx) (at : OutPoint) (key : Bytes) (s s' : MempoolData)
      → insert_input_key e at key s ≡ ok tt s'
      → key_view q x o s' ≡ spend q x o e at key (key_view q x o s)
  unfolding insert_input_key
  insert_input_key-view e at key s s' h = rw (fail_if-ok _ _ h) (
      rw (in_history-tidy, in_history-add, inserted-tidy, deleted-tidy)
        (unfold inserted deleted in
          ground (arith, ==_iff q key, spend_delta-view at o (delta_of s key))))

module _ (lib : ScriptLib) (txid : Sha256d) (time : ℤ) (q : Bytes) (x : TimedTx)
    (o : OutPoint) where
  insert_output-view :
      (item : ℕ × TxOutput) (s s' : MempoolData)
      → insert_output lib txid time item s ≡ ok tt s'
      → key_view q x o s' ≡ make_output lib txid time q x o item (key_view q x o s)
  unfolding insert_output make_output
  insert_output-view (out_idx, output) s s' h =
      for_each-view (key_view q x o) _ _
        (insert_output_key-view q x o time (record { txid = txid; out_idx = out_idx }))
        (payload_keys lib output.script) s s' h

  insert_spend-view :
      (idx : ℕ) (at : OutPoint) (s s' : MempoolData)
      → insert_spend txid idx at s ≡ ok tt s'
      → key_view q x o s' ≡ key_view q x o s
  unfolding insert_spend in_history inserted deleted
  insert_spend-view idx at s s' h = rw (fail_if-ok _ _ h)

  insert_input-view :
      (item : ℕ × (TxInput × Coin)) (s s' : MempoolData)
      → insert_input lib txid time item s ≡ ok tt s'
      → key_view q x o s' ≡ spend_input lib txid time q x o item (key_view q x o s)
  unfolding insert_input spend_input
  insert_input-view (idx, (input, coin)) =
      >>-view (key_view q x o)
        (for_each (insert_input_key (time, txid) input.prev_out)
          (payload_keys lib coin.tx_output.script))
        (insert_spend txid idx input.prev_out)
        (spend_input lib txid time q x o (idx, (input, coin))) (λ w. w)
        (for_each-view (key_view q x o) _ (spend q x o (time, txid) input.prev_out)
          (insert_input_key-view q x o (time, txid) input.prev_out)
          (payload_keys lib coin.tx_output.script))
        (λ _. insert_spend-view idx input.prev_out) tt

  insert_entry-view :
      (entry : MempoolTxEntry) (s s' : MempoolData)
      → insert_entry txid entry s ≡ ok tt s'
      → key_view q x o s' ≡ key_view q x o s
  unfolding insert_entry in_history inserted deleted
  insert_entry-view entry s s' h = rw (fail_if-ok _ _ h)

  pub insert_mempool_tx-view :
      (tx : UnhashedTx) (coins : List Coin) (s s' : MempoolData)
      → insert_mempool_tx lib txid tx coins time s ≡ ok tt s'
      → key_view q x o s'
        ≡ run
            (spend_input lib txid time q x o)
            (enumerate 0 (zip tx.inputs coins))
            (run (make_output lib txid time q x o) (enumerate 0 tx.outputs) (key_view q x o s))
  unfolding insert_mempool_tx
  insert_mempool_tx-view tx coins =
      >>-view (key_view q x o) (for_each (insert_output lib txid time) outputs)
        (for_each (insert_input lib txid time) inputs >> insert_entry txid entry)
        (run (make_output lib txid time q x o) outputs)
        (run (spend_input lib txid time q x o) inputs)
        (for_each-view (key_view q x o) _ (make_output lib txid time q x o) insert_output-view
          outputs)
        (λ _.
          >>-view (key_view q x o) (for_each (insert_input lib txid time) inputs)
            (insert_entry txid entry) (run (spend_input lib txid time q x o) inputs) (λ w. w)
            (for_each-view (key_view q x o) _ (spend_input lib txid time q x o) insert_input-view
              inputs)
            (λ _. insert_entry-view entry) tt)
        tt
    where
      outputs : List (ℕ × TxOutput)
      outputs = enumerate 0 tx.outputs

      inputs : List (ℕ × (TxInput × Coin))
      inputs = enumerate 0 (zip tx.inputs coins)

      entry : MempoolTxEntry
      entry = record { tx = tx; spent_coins = coins; time_first_seen = time }
