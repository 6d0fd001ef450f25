-- ===== src/MempoolData/RoundTrip.antt =====
-- Deleting a transaction takes back what its insertion did.
use chronik.Prelude.{
  fun_ext, ℕ, ◌+◌, ℤ, ◌≡◌, ◌∙◌, [], ◌∷◌, true, false, none, some, List, any, arith,
}
use chronik.Std.Ord.{==_iff, ==_refl, nat_ord, int_ord, list_ord, pair_ord}
use chronik.Std.BTreeSet.{Distinct}
use chronik.Chain.{Bytes, Sha256d, OutPoint, outpoint_ord, UnhashedTx, TxInput, TxOutput, Coin}
use chronik.ScriptPayload.{ScriptLib}
use chronik.MempoolData.Defs.{
  TimedTx, Spend, MempoolTxEntry, MempoolData, MempoolDeleteMode, ok, enumerate,
}
use chronik.MempoolData.Insert.{insert_mempool_tx}
use chronik.MempoolData.Delete.{delete_mempool_tx}
use chronik.MempoolData.View.{in_history, inserted, deleted, is_spent_by}
use chronik.MempoolData.KeyView.{makes, spends, prev_outs}
use chronik.MempoolData.InsertLaws.{
  inputs_of, spends_as, insert_mempool_tx-keys, insert_mempool_tx-txs_spends,
}
use chronik.MempoolData.Sets.{HoldsSets, same_stored, same_delta}
use chronik.MempoolData.SetsKept.{insert_mempool_tx-HoldsSets, delete_mempool_tx-HoldsSets}
use chronik.MempoolData.DeleteLaws.{delete_mempool_tx-keys, delete_mempool_tx-txs_spends}

-- The mempool knows nothing of the transaction, and has not spent what it spends.
pub record IsFresh (lib : ScriptLib) (txid : Sha256d) (tx : UnhashedTx) (coins : List Coin)
    (time : ℤ) (s : MempoolData) : Type 0 where
  pub no_entry : s.txs txid ≡ none
  pub no_history : (q : Bytes) → in_history s q (time, txid) ≡ false
  pub no_output : (q : Bytes) (n : ℕ) → inserted s q (record { txid = txid; out_idx = n }) ≡ false
  pub no_spend : (t : Sha256d) (n idx : ℕ) → is_spent_by s t (n, (txid, idx)) ≡ false
  pub unspent :
      (q : Bytes) (o : OutPoint)
      → any (spends lib q o) (inputs_of tx coins) ≡ true
      → deleted s q o ≡ false
  pub distinct : Distinct (prev_outs (inputs_of tx coins))
  pub holds_sets : HoldsSets s

module _ (lib : ScriptLib) (txid : Sha256d) (s : MempoolData) where
  own_not_inserted :
      (q : Bytes) (o : OutPoint)
      → ((n : ℕ) → inserted s q (record { txid = txid; out_idx = n }) ≡ false)
      → (m : ℕ) (outputs : List TxOutput) → any (makes lib q o txid) (enumerate m outputs) ≡ true
      → inserted s q o ≡ false
  own_not_inserted q o none_in m [] h = ground arith
  own_not_inserted q o none_in m (output ∷ outputs) h = ground (
    arith,
    none_in m,
    ==_iff o (record { txid = txid; out_idx = m }),
    own_not_inserted q o none_in (m + 1) outputs,
  )

  own_not_spent :
      (t : Sha256d) (sp : Spend)
      → ((n idx : ℕ) → is_spent_by s t (n, (txid, idx)) ≡ false)
      → (items : List (ℕ × (TxInput × Coin))) → any (spends_as t sp txid) items ≡ true
      → is_spent_by s t sp ≡ false
  own_not_spent t sp none_in [] h = ground arith
  own_not_spent t sp none_in ((idx, (input, coin)) ∷ items) h = ground (
    arith,
    none_in input.prev_out.out_idx idx,
    ==_iff sp (input.prev_out.out_idx, (txid, idx)),
    own_not_spent t sp none_in items,
  )

module _ (lib : ScriptLib) (txid : Sha256d) (tx : UnhashedTx) (coins : List Coin) (time : ℤ)
    (s s' s'' : MempoolData) (out : UnhashedTx) where
  abbrev HasSameSets : Type 0
  HasSameSets =
      ((txid : Sha256d) → s''.txs txid ≡ s.txs txid)
      × ((q : Bytes) (x : TimedTx) → in_history s'' q x ≡ in_history s q x)
      × ((q : Bytes) (o : OutPoint) → inserted s'' q o ≡ inserted s q o)
      × ((q : Bytes) (o : OutPoint) → deleted s'' q o ≡ deleted s q o)
      × ((t' : Sha256d) (sp : Spend) → is_spent_by s'' t' sp ≡ is_spent_by s t' sp)

  same_sets :
      IsFresh lib txid tx coins time s
      → insert_mempool_tx lib txid tx coins time s ≡ ok tt s'
      → delete_mempool_tx lib txid MempoolDeleteMode.remove s' ≡ ok out s''
      → HasSameSets
  same_sets fresh done undone = (
    λ t. ground (
      arith,
      (delete_mempool_tx-txs_spends lib MempoolDeleteMode.remove txid entry out s' s'' stored undone
          t (0, (0, 0))).0,
      (insert_mempool_tx-txs_spends lib txid tx coins time s s' done t (0, (0, 0))).0,
      fresh.no_entry,
      ==_iff t txid,
    ),
    λ q x. ground (
      arith,
      (delete_mempool_tx-keys lib MempoolDeleteMode.remove txid entry out s' s'' stored undone
          fresh.distinct q x at_zero).0,
      (insert_mempool_tx-keys lib txid tx coins time s s' done fresh.distinct q x at_zero).0,
      fresh.no_history q,
      ==_iff x (time, txid),
    ),
    λ q o. ground (
      arith,
      (delete_mempool_tx-keys lib MempoolDeleteMode.remove txid entry out s' s'' stored undone
          fresh.distinct q (time, txid) o).1,
      (insert_mempool_tx-keys lib txid tx coins time s s' done fresh.distinct q (time, txid) o).1,
      (insert_mempool_tx-keys lib txid tx coins time s s' done fresh.distinct q (time, txid) o).2,
      fresh.unspent q o,
      own_not_inserted lib txid s q o (fresh.no_output q) 0 tx.outputs,
    ),
    λ q o. ground (
      arith,
      (delete_mempool_tx-keys lib MempoolDeleteMode.remove txid entry out s' s'' stored undone
          fresh.distinct q (time, txid) o).2,
      (insert_mempool_tx-keys lib txid tx coins time s s' done fresh.distinct q (time, txid) o).1,
      (insert_mempool_tx-keys lib txid tx coins time s s' done fresh.distinct q (time, txid) o).2,
      fresh.unspent q o,
    ),
    λ t sp. ground (
      arith,
      (delete_mempool_tx-txs_spends lib MempoolDeleteMode.remove txid entry out s' s'' stored undone
          t sp).1,
      (insert_mempool_tx-txs_spends lib txid tx coins time s s' done t sp).1,
      own_not_spent lib txid s t sp (fresh.no_spend t) (inputs_of tx coins),
    ),
  )
    where
      at_zero : OutPoint
      at_zero = record { txid = 0; out_idx = 0 }

      entry : MempoolTxEntry
      entry = record { tx = tx; spent_coins = coins; time_first_seen = time }

      stored : s'.txs txid ≡ some entry
      stored =
          (insert_mempool_tx-txs_spends lib txid tx coins time s s' done txid (0, (0, 0))).0
          ∙ rw (==_refl txid)

  -- If a fresh transaction is inserted into a mempool that stores sets, and none that is empty, and is
  -- then removed, both with success, then the mempool is the same as before the insertion.
  pub delete-insert :
      IsFresh lib txid tx coins time s
      → insert_mempool_tx lib txid tx coins time s ≡ ok tt s'
      → delete_mempool_tx lib txid MempoolDeleteMode.remove s' ≡ ok out s''
      → s'' ≡ s
  unfolding in_history inserted deleted is_spent_by
  delete-insert fresh done undone =
      let (txs, history, inserts, deletes, spent) = same_sets fresh done undone in
      let sets =
        delete_mempool_tx-HoldsSets lib txid MempoolDeleteMode.remove out s' s'' undone
          (insert_mempool_tx-HoldsSets lib txid tx coins time tt s s' done fresh.holds_sets) in
      let same_history = fun_ext (λ q.
        same_stored (s''.script_txs q) (s.script_txs q) (sets.history q)
          (fresh.holds_sets.history q) (history q)) in
      let same_utxos = fun_ext (λ q.
        same_delta (s''.utxos q) (s.utxos q) (sets.delta q) (fresh.holds_sets.delta q) (inserts q)
          (deletes q)) in
      let same_spends = fun_ext (λ t.
        same_stored (s''.spends t) (s.spends t) (sets.spends t) (fresh.holds_sets.spends t)
          (spent t)) in
      λ i. record {
        txs = fun_ext txs i;
        script_txs = same_history i;
        utxos = same_utxos i;
        spends = same_spends i;
      }
