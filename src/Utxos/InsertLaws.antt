-- ===== src/Utxos/InsertLaws.antt =====
-- The column after a block has been connected.
use chronik.Prelude.{ℕ, ◌≡◌, refl, Option, none, some, List, [], map, arith, if◌then◌else◌}
use chronik.Std.HashMap.{HashMap, unwrap_or}
use chronik.Std.SortedVec.{IsSorted}
use chronik.Std.Keyed.{or_else}
use chronik.Chain.{Bytes, TxOutput, UnhashedTx}
use chronik.ScriptPayload.{ScriptLib}
use chronik.Slp.{TxNum}
use chronik.SlpBatch.{entry_ord}
use chronik.Utxos.Defs.{
  UtxoData, UtxosError, outpoints, block_outputs, block_inputs, commit, stored,
}
use chronik.Utxos.Insert.{
  Changed, changed, insert_all, remove_all, new_insert_utxos, new_delete_utxos, insert_block_txs,
  insert_at_key, remove_at_key, value_of, override, and_then_map, first_error,
}
use chronik.Utxos.Grouped.{at_key, update_values-at_key}
use chronik.Utxos.Entries.{entry_at, made, mentions, Holds, insert_all-Holds, remove_all-Holds}

and_then_map-changed :
    (e : Option UtxosError) (rest : Changed (HashMap Bytes (List UtxoData)))
    (changes : HashMap Bytes (List UtxoData))
    → and_then_map e rest ≡ changed changes
    → (e ≡ none) × (rest ≡ changed changes)
and_then_map-changed none rest changes h = (refl, h)
and_then_map-changed (some e) rest changes h = ground (arith, h)

pub changed_at :
    (m changes : HashMap Bytes (List UtxoData)) (q : Bytes)
    → changed m ≡ changed changes
    → m q ≡ changes q
changed_at m changes q h = ground (arith, h)

stored-override :
    (old ins del : Option (List UtxoData))
    → unwrap_or del (unwrap_or (override ins old) []) ≡ unwrap_or (stored old (override del ins)) []
stored-override old ins del = ground arith

override_old :
    (old ins : Option (List UtxoData))
    → unwrap_or ins (unwrap_or old []) ≡ unwrap_or (override ins old) []
override_old old ins = ground arith

module _ (lib : ScriptLib) (db : HashMap Bytes (List UtxoData)) where
  module _ (first_tx_num : TxNum) (spent : ℕ → ℕ → TxOutput) (txs : List UnhashedTx)
      (input_tx_nums : List (List TxNum)) where
    -- The entries of a script: the new outputs are inserted, then the spent ones removed.
    pub insert_block_txs-at_key :
        (changes : HashMap Bytes (List UtxoData)) (q : Bytes)
        → insert_block_txs lib db first_tx_num spent txs input_tx_nums ≡ changed changes
        → (mid : List UtxoData) × (insert_all
              (at_key q (block_outputs lib first_tx_num txs))
              (unwrap_or (db q) [])
            ≡ changed mid)
          × (remove_all (at_key q (block_inputs lib spent txs input_tx_nums)) mid
              ≡ changed (unwrap_or (commit changes db q) []))
    unfolding insert_block_txs new_insert_utxos new_delete_utxos commit insert_all remove_all
    insert_block_txs-at_key changes q h =
        let inserts = new_insert_utxos lib db first_tx_num txs in
        let deletes = new_delete_utxos lib db first_tx_num spent txs input_tx_nums in
        let at_inserts =
          and_then_map-changed
            (first_error (map (λ item. item.0) (block_outputs lib first_tx_num txs)) inserts)
            (and_then_map
              (first_error (map (λ item. item.0) (block_inputs lib spent txs input_tx_nums))
                deletes)
              (changed (λ key. override (value_of (deletes key)) (value_of (inserts key)))))
            changes h in
        let at_deletes =
          and_then_map-changed
            (first_error (map (λ item. item.0) (block_inputs lib spent txs input_tx_nums)) deletes)
            (changed (λ key. override (value_of (deletes key)) (value_of (inserts key)))) changes
            at_inserts.1 in
        (
          unwrap_or (override (value_of (inserts q)) (db q)) [],
          ground (
            arith,
            update_values-at_key (insert_at_key lib db) (block_outputs lib first_tx_num txs) q
                (unwrap_or (db q) []) at_inserts.0 refl,
            override_old (db q) (value_of (inserts q)),
          ),
          ground (
            arith,
            update_values-at_key (remove_at_key lib db inserts)
                (block_inputs lib spent txs input_tx_nums) q
                (unwrap_or (override (value_of (inserts q)) (db q)) []) at_deletes.0 refl,
            stored-override (db q) (value_of (inserts q)) (value_of (deletes q)),
            changed_at (λ key. override (value_of (deletes key)) (value_of (inserts key))) changes q
                at_deletes.1,
          ),
        )

    pub insert_block_txs-entries :
        (changes : HashMap Bytes (List UtxoData)) (q : Bytes)
        → insert_block_txs lib db first_tx_num spent txs input_tx_nums ≡ changed changes
        → IsSorted (outpoints (unwrap_or (db q) []))
        → Holds
            (λ o.
              if mentions o (at_key q (block_inputs lib spent txs input_tx_nums))
              then none
              else or_else
                  (entry_at o (unwrap_or (db q) []))
                  (made o (at_key q (block_outputs lib first_tx_num txs))))
            (unwrap_or (commit changes db q) [])
    insert_block_txs-entries changes q h s =
        let loops = insert_block_txs-at_key changes q h in
        remove_all-Holds (at_key q (block_inputs lib spent txs input_tx_nums))
          (λ o.
            or_else (entry_at o (unwrap_or (db q) []))
              (made o (at_key q (block_outputs lib first_tx_num txs))))
          loops.0 (unwrap_or (commit changes db q) []) loops.2
          (insert_all-Holds (at_key q (block_outputs lib first_tx_num txs))
            (λ o. entry_at o (unwrap_or (db q) [])) (unwrap_or (db q) []) loops.0 loops.1
            (s, λ o. refl))
