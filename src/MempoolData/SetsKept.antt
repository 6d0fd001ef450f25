-- ===== src/MempoolData/SetsKept.antt =====
-- The methods of the mempool that succeed keep its sets in order, and remove what has become empty.
use chronik.Prelude.{
  ℕ, ℤ, ◌≡◌, sym, subst, Bool, true, false, Option, none, some, List, [], ◌∷◌, arith, if◌then◌else◌,
}
use chronik.Std.Ord.{Ord, nat_ord, int_ord, list_ord, pair_ord}
use chronik.Std.BTreeSet
use chronik.Std.BTreeSet.{contains, is_empty}
use chronik.Std.Ascending.{is_ascending, is_ascending-insert, is_ascending-remove}
use chronik.Std.HashMap
use chronik.Std.HashMap.{unwrap_or, is_some}
use chronik.Chain.{Bytes, Sha256d, OutPoint, outpoint_ord, UnhashedTx, Coin}
use chronik.ScriptPayload.{ScriptLib, payload_keys}
use chronik.MempoolData.Defs.{
  TimedTx, Spend, MempoolTxEntry, MempoolData, MempoolDeleteMode, M, ok, err, ◌>>◌, fail_if,
  for_each, enumerate, zip, output_already_unspent, no_such_tx, delta_of, add_script_tx,
  remove_script_tx,
}
use chronik.MempoolData.Insert.{
  insert_output_key, spend_delta, insert_input_key, insert_spend, insert_entry, insert_output,
  insert_input, insert_mempool_tx,
}
use chronik.MempoolData.Delete.{
  unspend_delta, delete_input_key, remove_spend, delete_spend, delete_output_key, delete_input,
  delete_output, delete_entry, delete_mempool_tx,
}
use chronik.MempoolData.View.{fail_if-ok, if-ok, >>-ok, for_each-ok}
use chronik.MempoolData.Sets.{
  is_untidy, insert-full, set_of, delta_sets, add_script_tx-HoldsSets, remove_script_tx-HoldsSets,
  AreSets, spend_delta-AreSets, unspend_delta-AreSets, tidy_delta-HoldsSets, set_delta-HoldsSets,
  HoldsSets,
}

stored_sets : {s : MempoolData} → HoldsSets s → (key : Bytes) → AreSets (delta_of s key)
stored_sets {s} n key = delta_sets (s.utxos key) (n.delta key)

-- A method that succeeds leaves sets, and none that is empty.
abbrev Keeps : {B : Type 0} → M B → Type 0
Keeps {B} m = (b : B) (s s' : MempoolData) → m s ≡ ok b s' → HoldsSets s → HoldsSets s'

>>-Keeps : {B : Type 0} (m : M (Unit {0})) (k : M B) → Keeps m → Keeps k → Keeps (m >> k)
>>-Keeps m k keep keep' b s s' h n =
    let (t, first, rest) = >>-ok m k s h in keep' b t s' rest (keep tt s t first n)

for_each-Keeps :
    {X : Type 0} (f : X → M (Unit {0}))
    → ((x : X) → Keeps (f x))
    → (xs : List X) → Keeps (for_each f xs)
unfolding for_each
for_each-Keeps f keep [] b s s' h n = let e : s ≡ s' = cc in subst HoldsSets e n
for_each-Keeps f keep (x ∷ xs) b s s' h n =
    let (t, first, rest) = for_each-ok f x xs h in
    for_each-Keeps f keep xs b t s' rest (keep x tt s t first n)

fail_if-Keeps :
    (b : Bool) (e : _) (t s' : MempoolData) → fail_if b e t ≡ ok tt s' → HoldsSets t → HoldsSets s'
fail_if-Keeps b e t s' h n = subst HoldsSets (sym (fail_if-ok b e h)) n

insert_output_key-Keeps :
    (time : ℤ) (o : OutPoint) (key : Bytes) → Keeps (insert_output_key time o key)
unfolding insert_output_key
insert_output_key-Keeps time o key b s s' h n =
    let added = add_script_tx-HoldsSets (time, o.txid) key s n in
    let delta = delta_of (add_script_tx (time, o.txid) key s) key in
    fail_if-Keeps _ _ _ s' h (
      set_delta-HoldsSets key (record delta { inserts = BTreeSet.insert o delta.inserts })
        (add_script_tx (time, o.txid) key s)
        (ground (
          arith,
          insert-full o delta.inserts,
          is_ascending-insert o delta.inserts (stored_sets added key).0,
          (stored_sets added key).1,
        ))
        added)

insert_input_key-Keeps :
    (e : TimedTx) (o : OutPoint) (key : Bytes) → Keeps (insert_input_key e o key)
unfolding insert_input_key
insert_input_key-Keeps e o key b s s' h n =
    let t = add_script_tx e key s in
    let held = add_script_tx-HoldsSets e key s n in
    fail_if-Keeps _ _ _ s' h (
      tidy_delta-HoldsSets key (spend_delta o (delta_of t key)) t
        (spend_delta-AreSets o (delta_of t key) (stored_sets held key)) held)

delete_input_key-Keeps :
    (e : TimedTx) (o : OutPoint) (key : Bytes) → Keeps (delete_input_key e o key)
unfolding delete_input_key
delete_input_key-Keeps e o key b s s' h n =
    let t = remove_script_tx e key s in
    let held = remove_script_tx-HoldsSets e key s n in
    fail_if-Keeps _ _ _ s' h (
      tidy_delta-HoldsSets key (unspend_delta o (delta_of t key)) t
        (unspend_delta-AreSets o (delta_of t key) (stored_sets held key)) held)

with_spends-HoldsSets :
    (t : Sha256d) (spends : List Spend) (s : MempoolData)
    → is_untidy (some spends) ≡ false
    → HoldsSets s
    → HoldsSets (record s { spends = HashMap.insert t spends s.spends })
with_spends-HoldsSets t spends s tidy n = record {
  history = n.history;
  delta = n.delta;
  spends = λ u. ground (arith, n.spends u, tidy);
}

without_spends-HoldsSets :
    (t : Sha256d) (s : MempoolData)
    → HoldsSets s
    → HoldsSets (record s { spends = HashMap.remove t s.spends })
without_spends-HoldsSets t s n = record {
  history = n.history;
  delta = n.delta;
  spends = λ u. ground (arith, n.spends u);
}

insert-tidy :
    {A : Type 0} ⦃o : Ord A⦄ (a : A) (xs : List A)
    → is_ascending xs ≡ true
    → is_untidy (some (BTreeSet.insert a xs)) ≡ false
insert-tidy a xs h = ground (arith, insert-full a xs, is_ascending-insert a xs h)

insert_spend-Keeps : (txid : Sha256d) (idx : ℕ) (o : OutPoint) → Keeps (insert_spend txid idx o)
unfolding insert_spend
insert_spend-Keeps txid idx o b s s' h n = fail_if-Keeps _ _ _ s' h (
    with_spends-HoldsSets o.txid
      (BTreeSet.insert (o.out_idx, (txid, idx)) (unwrap_or (s.spends o.txid) [])) s
      (insert-tidy (o.out_idx, (txid, idx)) (unwrap_or (s.spends o.txid) [])
        (set_of (s.spends o.txid) (n.spends o.txid)))
      n)

insert_entry-Keeps : (txid : Sha256d) (entry : MempoolTxEntry) → Keeps (insert_entry txid entry)
unfolding insert_entry
insert_entry-Keeps txid entry b s s' h n =
    fail_if-Keeps _ _ _ s' h (record { history = n.history; delta = n.delta; spends = n.spends })

rest-HoldsSets :
    (t : Sha256d) (rest : List Spend) (s : MempoolData)
    → is_ascending rest ≡ true
    → HoldsSets s
    → HoldsSets (record s {
      spends = if is_empty rest then HashMap.remove t s.spends else HashMap.insert t rest s.spends;
    })
rest-HoldsSets t [] s h n = without_spends-HoldsSets t s n
rest-HoldsSets t (x ∷ xs) s h n = with_spends-HoldsSets t (x ∷ xs) s (ground (arith, h)) n

remove_spend-Keeps :
    (txid : Sha256d) (idx : ℕ) (o : OutPoint) (spends : List Spend)
    → is_ascending spends ≡ true
    → Keeps (remove_spend txid idx o spends)
unfolding remove_spend
remove_spend-Keeps txid idx o spends asc b s s' h n = subst HoldsSets (sym (if-ok _ _ _ s h).1) (
    rest-HoldsSets o.txid (BTreeSet.remove (o.out_idx, (txid, idx)) spends) s
      (is_ascending-remove (o.out_idx, (txid, idx)) spends asc) n)

delete_spend-Keeps : (txid : Sha256d) (idx : ℕ) (o : OutPoint) → Keeps (delete_spend txid idx o)
unfolding delete_spend
delete_spend-Keeps txid idx o b s s' h n = cases (s.spends o.txid) (n.spends o.txid) h
  where
    cases :
        (r : Option (List Spend))
        → is_untidy r ≡ false
        → (elim r [
          | none ↦ err (output_already_unspent o) s
          | some spends ↦ remove_spend txid idx o spends s
        ])
          ≡ ok b s'
        → HoldsSets s'
    cases none tidy g = cc
    cases (some spends) tidy g =
        remove_spend-Keeps txid idx o spends (set_of (some spends) tidy) b s s' g n

delete_output_key-Keeps :
    (mode : MempoolDeleteMode) (e : TimedTx) (o : OutPoint) (key : Bytes)
    → Keeps (delete_output_key mode e o key)
unfolding delete_output_key
delete_output_key-Keeps MempoolDeleteMode.remove e o key b s s' h n =
    let t = remove_script_tx e key s in
    let held = remove_script_tx-HoldsSets e key s n in
    let sets = stored_sets held key in
    let d = delta_of t key in
    subst HoldsSets (sym (if-ok _ _ _ t h).1) (
      tidy_delta-HoldsSets key (record d { inserts = BTreeSet.remove o d.inserts }) t
        (is_ascending-remove o d.inserts sets.0, sets.1) held)
delete_output_key-Keeps MempoolDeleteMode.mined e o key b s s' h n =
    let t = remove_script_tx e key s in
    let held = remove_script_tx-HoldsSets e key s n in
    fail_if-Keeps _ _ _ s' h (
      tidy_delta-HoldsSets key (spend_delta o (delta_of t key)) t
        (spend_delta-AreSets o (delta_of t key) (stored_sets held key)) held)

module _ (lib : ScriptLib) where
  pub insert_mempool_tx-HoldsSets :
      (txid : Sha256d) (tx : UnhashedTx) (coins : List Coin) (time : ℤ)
      → Keeps (insert_mempool_tx lib txid tx coins time)
  unfolding insert_mempool_tx insert_output insert_input
  insert_mempool_tx-HoldsSets txid tx coins time =
      >>-Keeps (for_each (insert_output lib txid time) (enumerate 0 tx.outputs)) _
        (for_each-Keeps (insert_output lib txid time)
          (λ item.
            for_each-Keeps (insert_output_key time (record { txid = txid; out_idx = item.0 }))
              (λ key. insert_output_key-Keeps time (record { txid = txid; out_idx = item.0 }) key)
              (payload_keys lib item.1.script))
          (enumerate 0 tx.outputs))
        (>>-Keeps (for_each (insert_input lib txid time) (enumerate 0 (zip tx.inputs coins))) _
          (for_each-Keeps (insert_input lib txid time)
            (λ item.
              >>-Keeps
                (for_each (insert_input_key (time, txid) item.1.0.prev_out)
                  (payload_keys lib item.1.1.tx_output.script))
                (insert_spend txid item.0 item.1.0.prev_out)
                (for_each-Keeps (insert_input_key (time, txid) item.1.0.prev_out)
                  (insert_input_key-Keeps (time, txid) item.1.0.prev_out)
                  (payload_keys lib item.1.1.tx_output.script))
                (insert_spend-Keeps txid item.0 item.1.0.prev_out))
            (enumerate 0 (zip tx.inputs coins)))
          (insert_entry-Keeps txid
            (record { tx = tx; spent_coins = coins; time_first_seen = time })))

  delete_entry-Keeps :
      (mode : MempoolDeleteMode) (txid : Sha256d) (entry : MempoolTxEntry)
      → Keeps (delete_entry lib mode txid entry)
  unfolding delete_entry delete_input delete_output
  delete_entry-Keeps mode txid entry =
      let inputs = enumerate 0 (zip entry.tx.inputs entry.spent_coins) in
      let time = entry.time_first_seen in
      >>-Keeps (for_each (delete_input lib txid time) inputs) _
        (for_each-Keeps (delete_input lib txid time)
          (λ item.
            >>-Keeps
              (for_each (delete_input_key (time, txid) item.1.0.prev_out)
                (payload_keys lib item.1.1.tx_output.script))
              (delete_spend txid item.0 item.1.0.prev_out)
              (for_each-Keeps (delete_input_key (time, txid) item.1.0.prev_out)
                (delete_input_key-Keeps (time, txid) item.1.0.prev_out)
                (payload_keys lib item.1.1.tx_output.script))
              (delete_spend-Keeps txid item.0 item.1.0.prev_out))
          inputs)
        (>>-Keeps (for_each (delete_output lib mode txid time) (enumerate 0 entry.tx.outputs)) _
          (for_each-Keeps (delete_output lib mode txid time)
            (λ item.
              for_each-Keeps
                (delete_output_key mode (time, txid) (record { txid = txid; out_idx = item.0 }))
                (delete_output_key-Keeps mode (time, txid)
                  (record { txid = txid; out_idx = item.0 }))
                (payload_keys lib item.1.script))
            (enumerate 0 entry.tx.outputs))
          (λ b s s' h n. let e : s ≡ s' = cc in subst HoldsSets e n))

  pub delete_mempool_tx-HoldsSets :
      (txid : Sha256d) (mode : MempoolDeleteMode) → Keeps (delete_mempool_tx lib txid mode)
  unfolding delete_mempool_tx
  delete_mempool_tx-HoldsSets txid mode b s s' h n = cases (s.txs txid) h
    where
      cases :
          (r : Option MempoolTxEntry)
          → (elim r [
            | none ↦ err (no_such_tx txid) s
            | some entry ↦
                delete_entry lib mode txid entry (record s { txs = HashMap.remove txid s.txs })
          ])
            ≡ ok b s'
          → HoldsSets s'
      cases none g = cc
      cases (some entry) g =
          delete_entry-Keeps mode txid entry b (record s { txs = HashMap.remove txid s.txs }) s' g
            (record { history = n.history; delta = n.delta; spends = n.spends })
