-- ===== src/Utxos/DeleteLaws.antt =====
-- The column after a block has been disconnected.
use chronik.Prelude.{
  ℕ, ◌≡◌, refl, ◌∙◌, ap, subst, sym, Bool, true, false, ◌||◌, Option, none, some, List, [], ◌∷◌,
  ◌++◌, arith, if◌then◌else◌, Bool-cases, inl, inr, enumerate, concat_map, tail,
}
use chronik.Std.Ord.{◌==◌, ==_iff, nat_ord, list_ord}
use chronik.Std.HashMap
use chronik.Std.HashMap.{HashMap, unwrap_or}
use chronik.Std.SortedVec.{IsSorted}
use chronik.Std.Keyed.{or_else}
use chronik.Chain.{Bytes, Sha256d, TxInput, TxOutput, UnhashedTx}
use chronik.ScriptPayload.{ScriptLib}
use chronik.Slp.{TxNum}
use chronik.SlpBatch.{OutpointEntry, entry_ord}
use chronik.Utxos.Defs.{UtxoEntry, UtxoData, outpoints, block_outputs, commit, stored}
use chronik.Utxos.Insert.{Changed, changed, inconsistent}
use chronik.Utxos.Delete.{
  update_map_or_db_entry, spent_entries, restore_all, restore_input, restore_inputs, take_back_all,
  take_back, delete_block_txs, placed_inputs,
}
use chronik.Utxos.Grouped.{at_key}
use chronik.InputTxNums.{tx_num_of}
use chronik.Utxos.InsertLaws.{changed_at}
use chronik.Utxos.Entries.{
  entry_at, made, Holds, Holds-agree, insert_step, remove_step, insert_step-Holds,
  remove_step-Holds,
}

abbrev pub made_in : OutpointEntry → List UtxoEntry → Bool
made_in o [] = false
made_in o (e ∷ es) = o == e.outpoint || made_in o es

module _ (lib : ScriptLib) (db : HashMap Bytes (List UtxoData)) where
  -- The entries of a script: those in the map, or in the column.
  abbrev pub current : HashMap Bytes (List UtxoData) → Bytes → List UtxoData
  current m q = unwrap_or (m q) (unwrap_or (db q) [])

  current-update :
      (key q : Bytes) (f : List UtxoData → List UtxoData) (m : HashMap Bytes (List UtxoData))
      → current (update_map_or_db_entry lib db key f m) q
        ≡ (if q == key then f (current m q) else current m q)
  unfolding update_map_or_db_entry
  current-update key q f m = ground (arith, ==_iff q key)

  current_update-Holds :
      (key q : Bytes) (f : List UtxoData → List UtxoData) (m : HashMap Bytes (List UtxoData))
      (at : OutpointEntry → Option UtxoData)
      → ((q == key) ≡ true → Holds at (f (current m q)))
      → ((q == key) ≡ false → Holds at (current m q))
      → Holds at (current (update_map_or_db_entry lib db key f m) q)
  current_update-Holds key q f m at same other =
      subst (Holds at) (sym (current-update key q f m)) (elim (Bool-cases (q == key)) [
        | inl e ↦
            subst (λ b. Holds at (if b then f (current m q) else current m q)) (sym e) (same e)
        | inr e ↦
            subst (λ b. Holds at (if b then f (current m q) else current m q)) (sym e) (other e)
      ])

  pub restore_all-Holds :
      (items : List (Bytes × UtxoEntry)) (q : Bytes) (at : OutpointEntry → Option UtxoData)
      (m : HashMap Bytes (List UtxoData))
      → Holds at (current m q)
      → Holds
          (λ o. or_else (at o) (made o (at_key q items)))
          (current (restore_all lib db items m) q)
  unfolding restore_all at_key made
  restore_all-Holds [] q at m h =
      Holds-agree at (λ o. or_else (at o) none) (current m q) (λ o. ground arith) h
  restore_all-Holds ((key, e) ∷ items) q at m h =
      let one =
        λ (o : OutpointEntry). if q == key then or_else (at o) (made o (e ∷ [])) else at o in
      let next = update_map_or_db_entry lib db key (insert_step e) m in
      Holds-agree (λ o. or_else (one o) (made o (at_key q items)))
        (λ o. or_else (at o) (made o (at_key q ((key, e) ∷ items))))
        (current (restore_all lib db items next) q) (λ o. ground arith)
        (restore_all-Holds items q one next (
          current_update-Holds key q (insert_step e) m one
            (λ y.
              Holds-agree (λ o. or_else (at o) (made o (e ∷ []))) one (insert_step e (current m q))
                (λ o. ground (arith, y)) (insert_step-Holds e [] at (current m q) h))
            (λ n. Holds-agree at one (current m q) (λ o. ground (arith, n)) h)))

  pub take_back_all-Holds :
      (items : List (Bytes × UtxoEntry)) (q : Bytes) (at : OutpointEntry → Option UtxoData)
      (m : HashMap Bytes (List UtxoData))
      → Holds at (current m q)
      → Holds
          (λ o. if made_in o (at_key q items) then none else at o)
          (current (take_back_all lib db items m) q)
  unfolding take_back_all at_key
  take_back_all-Holds [] q at m h = Holds-agree at at (current m q) (λ o. refl) h
  take_back_all-Holds ((key, e) ∷ items) q at m h =
      let one = λ (o : OutpointEntry).
        if q == key then (if o == e.outpoint then none else at o) else at o in
      let next = update_map_or_db_entry lib db key (remove_step e.outpoint) m in
      Holds-agree (λ o. if made_in o (at_key q items) then none else one o)
        (λ o. if made_in o (at_key q ((key, e) ∷ items)) then none else at o)
        (current (take_back_all lib db items next) q) (λ o. ground arith)
        (take_back_all-Holds items q one next (
          current_update-Holds key q (remove_step e.outpoint) m one
            (λ y.
              Holds-agree (λ o. if o == e.outpoint then none else at o) one
                (remove_step e.outpoint (current m q)) (λ o. ground (arith, y))
                (remove_step-Holds e.outpoint at (current m q) h))
            (λ n. Holds-agree at one (current m q) (λ o. ground (arith, n)) h)))

  restore_all-append :
      (xs ys : List (Bytes × UtxoEntry)) (m : HashMap Bytes (List UtxoData))
      → restore_all lib db (xs ++ ys) m ≡ restore_all lib db ys (restore_all lib db xs m)
  unfolding restore_all
  restore_all-append [] ys m = refl
  restore_all-append ((key, e) ∷ xs) ys m =
      restore_all-append xs ys (update_map_or_db_entry lib db key (insert_step e) m)

  module _ (num_of : Sha256d → Option TxNum) (spent : ℕ → ℕ → TxOutput) where
    abbrev pub restored_from : ℕ × (ℕ × TxInput) → Option TxNum → List (Bytes × UtxoEntry)
    restored_from item none = []
    restored_from (tx_pos, (input_idx, input)) (some n) =
        spent_entries lib db (record { tx_num = n; out_idx = input.prev_out.out_idx })
          (spent tx_pos input_idx)

    -- What an input puts back.
    abbrev pub restored_entries : ℕ × (ℕ × TxInput) → List (Bytes × UtxoEntry)
    restored_entries item = restored_from item (num_of item.1.1.prev_out.txid)

    restore_input-restore_all :
        (item : ℕ × (ℕ × TxInput)) (r : Option TxNum) (items : List (Bytes × UtxoEntry))
        (rest : HashMap Bytes (List UtxoData) → Changed (HashMap Bytes (List UtxoData)))
        (m out : HashMap Bytes (List UtxoData))
        → ((next : HashMap Bytes (List UtxoData))
            → rest next ≡ changed out
            → restore_all lib db items next ≡ out)
        → restore_input lib db num_of spent item r rest m ≡ changed out
        → restore_all lib db (restored_from item r ++ items) m ≡ out
    restore_input-restore_all item none items rest m out ih h = ground (arith, h)
    restore_input-restore_all (tx_pos, (input_idx, input)) (some n) items rest m out ih h =
        restore_all-append (restored_from (tx_pos, (input_idx, input)) (some n)) items m
        ∙ ih (restore_all lib db (restored_from (tx_pos, (input_idx, input)) (some n)) m) h

    restore_inputs-restore_all :
        (items : List (ℕ × (ℕ × TxInput))) (m out : HashMap Bytes (List UtxoData))
        → restore_inputs lib db num_of spent items m ≡ changed out
        → restore_all lib db (concat_map restored_entries items) m ≡ out
    unfolding restore_inputs restore_all
    restore_inputs-restore_all [] m out h = λ i q. changed_at m out q h i
    restore_inputs-restore_all (item ∷ items) m out h =
        restore_input-restore_all item (num_of item.1.1.prev_out.txid)
          (concat_map restored_entries items) (restore_inputs lib db num_of spent items) m out
          (λ next e. restore_inputs-restore_all items next out e) h

  take_back-changed :
      (items : List (Bytes × UtxoEntry)) (r : Changed (HashMap Bytes (List UtxoData)))
      (out : HashMap Bytes (List UtxoData))
      → take_back lib db items r ≡ changed out
      → (m : HashMap Bytes (List UtxoData)) × (r ≡ changed m)
        × ((q : Bytes) → take_back_all lib db items m q ≡ out q)
  take_back-changed items (changed m) out h =
      (m, refl, λ q. changed_at (take_back_all lib db items m) out q h)
  take_back-changed items (inconsistent e) out h = ground (arith, h)

  current_stored :
      (old new : Option (List UtxoData))
      → unwrap_or new (unwrap_or old []) ≡ unwrap_or (stored old new) []
  current_stored old new = ground arith

  module _ (first_tx_num : TxNum) (txid : ℕ → Sha256d) (tx_num_by_txid : Sha256d → Option TxNum)
      (txs : List UnhashedTx) (spent : ℕ → ℕ → TxOutput) where
    -- What the inputs of the block put back, each with the number of the transaction that it spends.
    abbrev pub block_restored : List (Bytes × UtxoEntry)
    block_restored =
        concat_map (restored_entries (tx_num_of first_tx_num txid tx_num_by_txid txs) spent)
          (concat_map placed_inputs (enumerate 0 (tail txs)))

    pub delete_block_txs-entries :
        (changes : HashMap Bytes (List UtxoData)) (q : Bytes)
        → delete_block_txs lib db first_tx_num txid tx_num_by_txid txs spent ≡ changed changes
        → IsSorted (outpoints (unwrap_or (db q) []))
        → Holds
            (λ o.
              if made_in o (at_key q (block_outputs lib first_tx_num txs))
              then none
              else or_else (entry_at o (unwrap_or (db q) [])) (made o (at_key q block_restored)))
            (unwrap_or (commit changes db q) [])
    unfolding delete_block_txs commit
    delete_block_txs-entries changes q h s =
        let outs = block_outputs lib first_tx_num txs in
        let num_of = tx_num_of first_tx_num txid tx_num_by_txid txs in
        let inputs = concat_map placed_inputs (enumerate 0 (tail txs)) in
        let old = λ (o : OutpointEntry). entry_at o (unwrap_or (db q) []) in
        let put_back = λ (o : OutpointEntry). or_else (old o) (made o (at_key q block_restored)) in
        let taken =
          take_back-changed outs (restore_inputs lib db num_of spent inputs HashMap.empty) changes
            h in
        let restored =
          subst (λ m. Holds put_back (current m q))
            (restore_inputs-restore_all num_of spent inputs HashMap.empty taken.0 taken.1)
            (restore_all-Holds block_restored q old HashMap.empty (s, λ o. refl)) in
        subst (Holds (λ o. if made_in o (at_key q outs) then none else put_back o))
          (ap (λ entries. unwrap_or entries (unwrap_or (db q) [])) (taken.2 q)
            ∙ current_stored (db q) (changes q))
          (take_back_all-Holds outs q put_back taken.0 restored)
