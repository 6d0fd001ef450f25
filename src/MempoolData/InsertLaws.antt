-- ===== src/MempoolData/InsertLaws.antt =====
-- What a successful `insert_mempool_tx` does to each of the four maps.
use chronik.Prelude.{
  ℕ, ℤ, ◌≡◌, refl, ◌∙◌, ap, Bool, not, ◌&&◌, ◌||◌, Option, some, List, [], ◌∷◌, any, arith,
  if◌then◌else◌,
}
use chronik.Std.Ord.{◌==◌, ==_iff, nat_ord, int_ord, list_ord, pair_ord}
use chronik.Std.BTreeSet.{contains-insert, Distinct}
use chronik.Chain.{Bytes, Sha256d, OutPoint, outpoint_ord, TxInput, TxOutput, UnhashedTx, Coin}
use chronik.ScriptPayload.{ScriptLib, payload_keys}
use chronik.MempoolData.Defs.{
  TimedTx, Spend, MempoolTxEntry, MempoolData, ok, for_each, enumerate, zip, ◌>>◌,
}
use chronik.MempoolData.Insert.{
  insert_output_key, insert_input_key, insert_spend, insert_output, insert_input, insert_entry,
  insert_mempool_tx, spends_of,
}
use chronik.MempoolData.View.{
  in_history, inserted, deleted, is_spent_by, run, run-same, fail_if-ok, >>-view, for_each-view,
}
use chronik.MempoolData.KeyView.{
  KeyView, spend_input, makes, names_output, names_input, spends, prev_outs, run-make_output,
  run-spend_input,
}
use chronik.MempoolData.InsertSpec.{insert_mempool_tx-view}

-- The inputs, with their indices and the coins that they spend.
abbrev pub inputs_of : UnhashedTx → List Coin → List (ℕ × (TxInput × Coin))
inputs_of tx coins = enumerate 0 (zip tx.inputs coins)

module _ (t : Sha256d) (sp : Spend) where
  -- The two other maps, at one transaction and one spend.
  abbrev pub tx_view : MempoolData → Bool × Option MempoolTxEntry
  tx_view s = (is_spent_by s t sp, s.txs t)

  module _ (txid : Sha256d) where
    -- The input is the spend `sp` of an output of `t`.
    abbrev pub spends_as : ℕ × (TxInput × Coin) → Bool
    spends_as (idx, (input, coin)) =
        t == input.prev_out.txid && sp == (input.prev_out.out_idx, (txid, idx))

    abbrev note_spend :
        ℕ × (TxInput × Coin) → Bool × Option MempoolTxEntry → Bool × Option MempoolTxEntry
    note_spend item (spent, entry) = (spends_as item || spent, entry)

    insert_output_key-tx :
        (time : ℤ) (at : OutPoint) (key : Bytes) (s s' : MempoolData)
        → insert_output_key time at key s ≡ ok tt s'
        → tx_view s' ≡ tx_view s
    unfolding insert_output_key is_spent_by
    insert_output_key-tx time at key s s' h = rw (fail_if-ok _ _ h)

    insert_input_key-tx :
        (e : TimedTx) (at : OutPoint) (key : Bytes) (s s' : MempoolData)
        → insert_input_key e at key s ≡ ok tt s'
        → tx_view s' ≡ tx_view s
    unfolding insert_input_key is_spent_by
    insert_input_key-tx e at key s s' h = rw (fail_if-ok _ _ h) (ground arith)

    insert_spend-tx :
        (idx : ℕ) (input : TxInput) (coin : Coin) (s s' : MempoolData)
        → insert_spend txid idx input.prev_out s ≡ ok tt s'
        → tx_view s' ≡ note_spend (idx, (input, coin)) (tx_view s)
    unfolding insert_spend is_spent_by
    insert_spend-tx idx input coin s s' h = rw (fail_if-ok _ _ h) (
        ground (
          arith,
          ==_iff t input.prev_out.txid,
          contains-insert (input.prev_out.out_idx, (txid, idx)) sp
              (spends_of s input.prev_out.txid),
        ))

    module _ (lib : ScriptLib) (time : ℤ) where
      insert_output-tx :
          (item : ℕ × TxOutput) (s s' : MempoolData)
          → insert_output lib txid time item s ≡ ok tt s'
          → tx_view s' ≡ tx_view s
      unfolding insert_output
      insert_output-tx (n, output) s s' h =
          for_each-view tx_view _ (λ _ w. w)
            (insert_output_key-tx time (record { txid = txid; out_idx = n }))
            (payload_keys lib output.script) s s' h
          ∙ run-same (payload_keys lib output.script) (tx_view s)

      insert_input-tx :
          (item : ℕ × (TxInput × Coin)) (s s' : MempoolData)
          → insert_input lib txid time item s ≡ ok tt s'
          → tx_view s' ≡ note_spend item (tx_view s)
      unfolding insert_input
      insert_input-tx (n, (input, coin)) =
          >>-view tx_view (for_each (insert_input_key (time, txid) input.prev_out) keys)
            (insert_spend txid n input.prev_out) (λ w. w) (note_spend (n, (input, coin)))
            (λ s s' h.
              for_each-view tx_view _ (λ _ w. w) (insert_input_key-tx (time, txid) input.prev_out)
                keys s s' h
              ∙ run-same keys (tx_view s))
            (λ _. insert_spend-tx n input coin) tt
        where
          keys : List Bytes
          keys = payload_keys lib coin.tx_output.script

      abbrev note_entry :
          MempoolTxEntry → Bool × Option MempoolTxEntry → Bool × Option MempoolTxEntry
      note_entry entry (spent, old) = (spent, if t == txid then some entry else old)

      insert_entry-tx :
          (entry : MempoolTxEntry) (s s' : MempoolData)
          → insert_entry txid entry s ≡ ok tt s'
          → tx_view s' ≡ note_entry entry (tx_view s)
      unfolding insert_entry is_spent_by
      insert_entry-tx entry s s' h = rw (fail_if-ok _ _ h)

      run-note_spend :
          (items : List (ℕ × (TxInput × Coin))) (spent : Bool) (entry : Option MempoolTxEntry)
          → run note_spend items (spent, entry) ≡ (any spends_as items || spent, entry)
      run-note_spend [] spent entry = refl
      run-note_spend (item ∷ items) spent entry =
          run-note_spend items (spends_as item || spent) entry ∙ ground arith

      insert_mempool_tx-tx :
          (tx : UnhashedTx) (coins : List Coin) (s s' : MempoolData)
          → insert_mempool_tx lib txid tx coins time s ≡ ok tt s'
          → tx_view s'
            ≡ note_entry
                (record { tx = tx; spent_coins = coins; time_first_seen = time })
                (any spends_as (enumerate 0 (zip tx.inputs coins)) || is_spent_by s t sp, s.txs t)
      unfolding insert_mempool_tx
      insert_mempool_tx-tx tx coins s s' h =
          >>-view tx_view (for_each (insert_output lib txid time) outputs)
            (for_each (insert_input lib txid time) inputs >> insert_entry txid entry) (λ w. w)
            (λ w. note_entry entry (run note_spend inputs w))
            (λ a b k.
              for_each-view tx_view _ (λ _ w. w) insert_output-tx outputs a b k
              ∙ run-same outputs (tx_view a))
            (λ _.
              >>-view tx_view (for_each (insert_input lib txid time) inputs)
                (insert_entry txid entry) (run note_spend inputs) (note_entry entry)
                (for_each-view tx_view _ note_spend insert_input-tx inputs)
                (λ _. insert_entry-tx entry) tt)
            tt s s' h
          ∙ ap (note_entry entry) (run-note_spend inputs (is_spent_by s t sp) (s.txs t))
        where
          outputs : List (ℕ × TxOutput)
          outputs = enumerate 0 tx.outputs

          inputs : List (ℕ × (TxInput × Coin))
          inputs = enumerate 0 (zip tx.inputs coins)

          entry : MempoolTxEntry
          entry = record { tx = tx; spent_coins = coins; time_first_seen = time }

module _ (lib : ScriptLib) (txid : Sha256d) (tx : UnhashedTx) (coins : List Coin) (time : ℤ)
    (s s' : MempoolData) where
  -- If the insertion succeeds, the transaction is stored under its id and nothing else changes in
  -- `txs`; and the spends of a transaction `t` gain exactly the inputs of `tx` that spend outputs
  -- of `t`.
  pub insert_mempool_tx-txs_spends :
      insert_mempool_tx lib txid tx coins time s ≡ ok tt s'
      → (t : Sha256d) (sp : Spend)
      → (s'.txs t ≡ (
          if t == txid
          then some (record { tx = tx; spent_coins = coins; time_first_seen = time })
          else s.txs t))
        × (is_spent_by s' t sp
            ≡ (any (spends_as t sp txid) (inputs_of tx coins) || is_spent_by s t sp))
  insert_mempool_tx-txs_spends h t sp =
      let e = insert_mempool_tx-tx t sp txid lib time tx coins s s' h in
      (
        ap (λ (w : Bool × Option MempoolTxEntry). w.1) e,
        ap (λ (w : Bool × Option MempoolTxEntry). w.0) e,
      )

  -- If the insertion succeeds and no two inputs spend the same outpoint, then at every key: the
  -- history gains the transaction if one of its outputs or spent outputs has the key; the inserts
  -- gain its outputs and lose what it spends; and the deletes gain what it spends and was not among
  -- the inserts.
  pub insert_mempool_tx-keys :
      insert_mempool_tx lib txid tx coins time s ≡ ok tt s'
      → Distinct (prev_outs (inputs_of tx coins))
      → (q : Bytes) (x : TimedTx) (o : OutPoint)
      → let named =
          any (names_output lib q) (enumerate 0 tx.outputs)
          || any (names_input lib q) (inputs_of tx coins) in
        let made = any (makes lib q o txid) (enumerate 0 tx.outputs) in
        let spent = any (spends lib q o) (inputs_of tx coins) in
        (in_history s' q x ≡ ((named && x == (time, txid)) || in_history s q x))
        × (inserted s' q o ≡ (not spent && (made || inserted s q o)))
        × (deleted s' q o ≡ (deleted s q o || (spent && not (made || inserted s q o))))
  insert_mempool_tx-keys h distinct q x o =
      let e =
        insert_mempool_tx-view lib txid time q x o tx coins s s' h
        ∙ ap (run (spend_input lib txid time q x o) (inputs_of tx coins))
            (run-make_output lib txid time q x o (enumerate 0 tx.outputs) _ _ _)
        ∙ run-spend_input lib txid time q x o (inputs_of tx coins) _ _ _ distinct in
      (
        ap (λ (w : KeyView). w.0) e ∙ ground arith,
        ap (λ (w : KeyView). w.1.0) e,
        ap (λ (w : KeyView). w.1.1) e,
      )
