-- ===== src/MempoolData/DeleteTxs.antt =====
-- What a successful `delete_mempool_tx` does to the spends and to the stored transactions.
use chronik.Prelude.{
  ℕ, ℤ, ◌≡◌, refl, ◌∙◌, ap, Bool, not, ◌&&◌, Option, some, List, [], ◌∷◌, any, arith, Option-cases,
  inl, inr,
}
use chronik.Std.Ord.{==_iff, nat_ord, int_ord, list_ord, pair_ord}
use chronik.Std.BTreeSet.{contains, contains-remove}
use chronik.Chain.{Bytes, Sha256d, OutPoint, outpoint_ord, TxInput, TxOutput, UnhashedTx, Coin}
use chronik.ScriptPayload.{ScriptLib, payload_keys}
use chronik.MempoolData.Defs.{
  TimedTx, Spend, MempoolTxEntry, MempoolData, MempoolDeleteMode, ok, for_each, enumerate, ◌>>◌,
}
use chronik.MempoolData.Delete.{
  delete_input_key, remove_spend, delete_spend, delete_output_key, delete_input, delete_output,
  delete_entry,
}
use chronik.MempoolData.View.{is_spent_by, run, run-same, fail_if-ok, if-ok, >>-view, for_each-view}
use chronik.MempoolData.InsertLaws.{inputs_of, tx_view, spends_as}

module _ (t : Sha256d) (sp : Spend) where
  delete_input_key-tx :
      (e : TimedTx) (at : OutPoint) (key : Bytes) (s s' : MempoolData)
      → delete_input_key e at key s ≡ ok tt s'
      → tx_view t sp s' ≡ tx_view t sp s
  unfolding delete_input_key is_spent_by
  delete_input_key-tx e at key s s' h = rw (fail_if-ok _ _ h) (ground arith)

  delete_output_key-tx :
      (mode : MempoolDeleteMode) (e : TimedTx) (at : OutPoint) (key : Bytes) (s s' : MempoolData)
      → delete_output_key mode e at key s ≡ ok tt s'
      → tx_view t sp s' ≡ tx_view t sp s
  unfolding delete_output_key is_spent_by
  delete_output_key-tx MempoolDeleteMode.mined e at key s s' h =
      rw (fail_if-ok _ _ h) (ground arith)
  delete_output_key-tx MempoolDeleteMode.remove e at key s s' h =
      rw (if-ok _ _ _ _ h).1 (ground arith)

  module _ (txid : Sha256d) where
    abbrev drop_spend :
        ℕ × (TxInput × Coin) → Bool × Option MempoolTxEntry → Bool × Option MempoolTxEntry
    drop_spend item (spent, entry) = (not (spends_as t sp txid item) && spent, entry)

    remove_spend-tx :
        (idx : ℕ) (input : TxInput) (coin : Coin) (held : List Spend) (s s' : MempoolData)
        → s.spends input.prev_out.txid ≡ some held
        → remove_spend txid idx input.prev_out held s ≡ ok tt s'
        → tx_view t sp s' ≡ drop_spend (idx, (input, coin)) (tx_view t sp s)
    unfolding remove_spend is_spent_by contains
    remove_spend-tx idx input coin held s s' e h = rw (if-ok _ _ _ _ h).1 (
        ground (
          arith,
          ==_iff t input.prev_out.txid,
          contains-remove (input.prev_out.out_idx, (txid, idx)) sp held,
        ))

    delete_spend-tx :
        (idx : ℕ) (input : TxInput) (coin : Coin) (s s' : MempoolData)
        → delete_spend txid idx input.prev_out s ≡ ok tt s'
        → tx_view t sp s' ≡ drop_spend (idx, (input, coin)) (tx_view t sp s)
    unfolding delete_spend
    delete_spend-tx idx input coin s s' h = elim (Option-cases (s.spends input.prev_out.txid)) [
      | inl e ↦ ground arith
      | inr (held, e) ↦ remove_spend-tx idx input coin held s s' e (rw (e, delete_spend) at h)
    ]

    run-drop_spend :
        (items : List (ℕ × (TxInput × Coin))) (spent : Bool) (entry : Option MempoolTxEntry)
        → run drop_spend items (spent, entry)
          ≡ (not (any (spends_as t sp txid) items) && spent, entry)
    run-drop_spend [] spent entry = refl
    run-drop_spend (item ∷ items) spent entry =
        run-drop_spend items (not (spends_as t sp txid item) && spent) entry ∙ ground arith

    module _ (lib : ScriptLib) (time : ℤ) where
      delete_input-tx :
          (item : ℕ × (TxInput × Coin)) (s s' : MempoolData)
          → delete_input lib txid time item s ≡ ok tt s'
          → tx_view t sp s' ≡ drop_spend item (tx_view t sp s)
      unfolding delete_input
      delete_input-tx (n, (input, coin)) =
          >>-view (tx_view t sp) (for_each (delete_input_key (time, txid) input.prev_out) keys)
            (delete_spend txid n input.prev_out) (λ w. w) (drop_spend (n, (input, coin)))
            (λ s s' h.
              for_each-view (tx_view t sp) _ (λ _ w. w)
                (delete_input_key-tx (time, txid) input.prev_out) keys s s' h
              ∙ run-same keys (tx_view t sp s))
            (λ _. delete_spend-tx n input coin) tt
        where
          keys : List Bytes
          keys = payload_keys lib coin.tx_output.script

      delete_output-tx :
          (mode : MempoolDeleteMode) (item : ℕ × TxOutput) (s s' : MempoolData)
          → delete_output lib mode txid time item s ≡ ok tt s'
          → tx_view t sp s' ≡ tx_view t sp s
      unfolding delete_output
      delete_output-tx mode (n, output) s s' h =
          for_each-view (tx_view t sp) _ (λ _ w. w)
            (delete_output_key-tx mode (time, txid) (record { txid = txid; out_idx = n }))
            (payload_keys lib output.script) s s' h
          ∙ run-same (payload_keys lib output.script) (tx_view t sp s)

    pub delete_entry-tx :
        (lib : ScriptLib) (mode : MempoolDeleteMode) (entry : MempoolTxEntry) (tx : UnhashedTx)
        (s s' : MempoolData)
        → delete_entry lib mode txid entry s ≡ ok tx s'
        → tx_view t sp s' ≡ (
          not (any (spends_as t sp txid) (inputs_of entry.tx entry.spent_coins))
              && is_spent_by s t sp,
          s.txs t,
        )
    unfolding delete_entry
    delete_entry-tx lib mode entry tx s s' h =
        >>-view (tx_view t sp) (for_each (delete_input lib txid time) inputs)
          (for_each (delete_output lib mode txid time) outputs >> λ u. ok entry.tx u)
          (run drop_spend inputs) (λ w. w)
          (for_each-view (tx_view t sp) _ drop_spend (delete_input-tx lib time) inputs)
          (>>-view (tx_view t sp) (for_each (delete_output lib mode txid time) outputs)
            (λ u. ok entry.tx u) (λ w. w) (λ w. w)
            (λ a b k.
              for_each-view (tx_view t sp) _ (λ _ w. w) (delete_output-tx lib time mode) outputs a b
                k
              ∙ run-same outputs (tx_view t sp a))
            (λ b a a' k. ap (tx_view t sp) (ground arith)))
          tx s s' h
        ∙ run-drop_spend inputs (is_spent_by s t sp) (s.txs t)
      where
        open entry use {time_first_seen as time}

        outputs : List (ℕ × TxOutput)
        outputs = enumerate 0 entry.tx.outputs

        inputs : List (ℕ × (TxInput × Coin))
        inputs = inputs_of entry.tx entry.spent_coins
