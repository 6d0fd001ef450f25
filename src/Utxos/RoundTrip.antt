-- ===== src/Utxos/RoundTrip.antt =====
-- A block that is connected and then disconnected.
use chronik.Prelude.{
  ℕ, ◌≡◌, refl, ◌∙◌, ap, Bool, true, false, Option, none, some, List, [], ◌∷◌, map, arith,
  if◌then◌else◌,
}
use chronik.Std.Ord.{==_iff, nat_ord, list_ord}
use chronik.Std.HashMap.{HashMap, is_some, unwrap_or}
use chronik.Std.SortedVec.{Search, found, absent, IsSorted}
use chronik.Std.Keyed.{or_else, lookup_unique, found_iff, insert_missing, is_found}
use chronik.Chain.{Bytes, Sha256d, TxOutput, UnhashedTx}
use chronik.ScriptPayload.{ScriptLib}
use chronik.Slp.{TxNum}
use chronik.SlpBatch.{OutpointEntry, entry_ord}
use chronik.Utxos.Defs.{
  UtxoEntry, UtxoData, data_of, outpoints, search_entry, block_outputs, commit,
}
use chronik.Utxos.Insert.{changed, then_all, insert_new, insert_all, insert_block_txs}
use chronik.Utxos.Delete.{delete_block_txs}
use chronik.Utxos.Grouped.{at_key}
use chronik.Utxos.Entries.{entry_at, made, mentions, insert_step, insert_step-Holds}
use chronik.Utxos.InsertLaws.{insert_block_txs-at_key, insert_block_txs-entries}
use chronik.InputTxNums.{fetched, fetch_input_tx_nums}
use chronik.Utxos.Resolved.{block_inputs-block_restored}
use chronik.Utxos.DeleteLaws.{made_in, block_restored, delete_block_txs-entries}

made_iff : (o : OutpointEntry) (es : List UtxoEntry) → is_some (made o es) ≡ made_in o es
unfolding made
made_iff o [] = refl
made_iff o (e ∷ es) = ground (arith, made_iff o es)

mentions-outpoints :
    (o : OutpointEntry) (q : Bytes) (items : List (Bytes × UtxoEntry))
    → mentions o (at_key q (map (λ item. (item.0, item.1.outpoint)) items))
      ≡ made_in o (at_key q items)
unfolding at_key
mentions-outpoints o q [] = refl
mentions-outpoints o q ((key, e) ∷ items) = ground (arith, mentions-outpoints o q items)

insert_new-fresh :
    (e : UtxoEntry) (es : List UtxoEntry) (entries out : List UtxoData) (r : Search)
    → then_all (insert_all es) (insert_new (data_of e) entries r) ≡ changed out
    → (is_found r ≡ false) × (insert_all es (insert_missing (data_of e) entries r) ≡ changed out)
insert_new-fresh e es entries out (absent i) h = (refl, h)
insert_new-fresh e es entries out (found i) h = ground (arith, h)

-- What is inserted was not there.
insert_all-fresh :
    (es : List UtxoEntry) (entries out : List UtxoData) (o : OutpointEntry)
    → insert_all es entries ≡ changed out
    → IsSorted (outpoints entries)
    → made_in o es ≡ true
    → entry_at o entries ≡ none
unfolding insert_all made
insert_all-fresh [] entries out o h s m = ground (arith, m)
insert_all-fresh (e ∷ es) entries out o h s m =
    let first = insert_new-fresh e es entries out (search_entry e.outpoint entries) h in
    let step = insert_step-Holds e es (λ b. entry_at b entries) entries (s, λ b. refl) in
    ground (
      arith,
      ==_iff o e.outpoint,
      first.0,
      found_iff (λ d. d.outpoint) e.outpoint entries s,
      step.1 o,
      insert_all-fresh es (insert_step e entries) out o first.1 step.0,
      m,
    )

-- What the two steps leave at an outpoint.
restored_at :
    (old made_here made_back : Option UtxoData) (in_block spent_here : Bool)
    → is_some made_here ≡ in_block
    → is_some made_back ≡ spent_here
    → (in_block ≡ true → old ≡ none)
    → ((d : UtxoData) → made_back ≡ some d → in_block ≡ false → old ≡ some d)
    → (if in_block
        then none
        else or_else (if spent_here then none else or_else old made_here) made_back)
      ≡ old
restored_at old none none b c e f fresh back = ground (arith, e, f)
restored_at old none (some d) b c e f fresh back = ground (arith, e, f, back d refl)
restored_at old (some m) back_entry b c e f fresh back = ground (arith, e, fresh)

module _ (lib : ScriptLib) (db : HashMap Bytes (List UtxoData)) where
  module _ (first_tx_num : TxNum) (txid : ℕ → Sha256d) (tx_num_by_txid : Sha256d → Option TxNum)
      (txs : List UnhashedTx) (spent : ℕ → ℕ → TxOutput) (input_tx_nums : List (List TxNum)) where
    -- A block that is connected with the transaction numbers fetched for its inputs, and then
    -- disconnected, leaves the stored entries of every script as they were: if they were in order, and an output
    -- that the block spends and has not made itself was stored with the value and the kind of its script.
    pub delete_block_txs-insert_block_txs :
        (changes undone : HashMap Bytes (List UtxoData)) (q : Bytes)
        → insert_block_txs lib db first_tx_num spent txs input_tx_nums ≡ changed changes
        → delete_block_txs lib (commit changes db) first_tx_num txid tx_num_by_txid txs spent
          ≡ changed undone
        → IsSorted (outpoints (unwrap_or (db q) []))
        → fetch_input_tx_nums first_tx_num txid tx_num_by_txid txs ≡ fetched input_tx_nums
        → ((o : OutpointEntry) (d : UtxoData)
            → made o (at_key q (block_restored lib db first_tx_num txid tx_num_by_txid txs spent))
              ≡ some d
            → made_in o (at_key q (block_outputs lib first_tx_num txs)) ≡ false
            → entry_at o (unwrap_or (db q) []) ≡ some d)
        → unwrap_or (commit undone (commit changes db) q) [] ≡ unwrap_or (db q) []
    delete_block_txs-insert_block_txs changes undone q i d s nums back =
        let outs = at_key q (block_outputs lib first_tx_num txs) in
        let puts = at_key q (block_restored lib db first_tx_num txid tx_num_by_txid txs spent) in
        let same =
          block_inputs-block_restored lib db first_tx_num txid tx_num_by_txid txs spent
            input_tx_nums nums in
        let inserted =
          insert_block_txs-entries lib db first_tx_num spent txs input_tx_nums changes q i s in
        let deleted =
          delete_block_txs-entries lib (commit changes db) first_tx_num txid tx_num_by_txid txs
            spent undone q d inserted.0 in
        let loops =
          insert_block_txs-at_key lib db first_tx_num spent txs input_tx_nums changes q i in
        lookup_unique (λ e. e.outpoint) (unwrap_or (commit undone (commit changes db) q) [])
          (unwrap_or (db q) []) deleted.0 s
          (λ o.
            deleted.1 o
            ∙ ap (λ e. if made_in o outs then none else or_else e (made o puts))
                (inserted.1 o
                  ∙ ap
                      (λ b.
                        if b
                        then none
                        else or_else (entry_at o (unwrap_or (db q) [])) (made o outs))
                      (ap (λ items. mentions o (at_key q items)) same
                        ∙ mentions-outpoints o q
                            (block_restored lib db first_tx_num txid tx_num_by_txid txs spent)))
            ∙ restored_at (entry_at o (unwrap_or (db q) [])) (made o outs) (made o puts)
                (made_in o outs) (made_in o puts) (made_iff o outs) (made_iff o puts)
                (insert_all-fresh outs (unwrap_or (db q) []) loops.0 o loops.1 s) (back o))
