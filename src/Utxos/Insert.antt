-- ===== src/Utxos/Insert.antt =====
-- `UtxosWriter::insert_block_txs`. The database is given by what it holds before the block; a block
-- whose batch is not written because of an error changes nothing.
use chronik.Prelude.{ℕ, Option, none, some, List, [], ◌∷◌, map, insert_at, remove_at}
use chronik.Std.Ord.{nat_ord, list_ord}
use chronik.Std.HashMap
use chronik.Std.HashMap.{HashMap, unwrap_or}
use chronik.Std.SortedVec.{Search, found, absent}
use chronik.Chain.{Bytes, TxOutput, UnhashedTx}
use chronik.ScriptPayload.{ScriptLib}
use chronik.Slp.{TxNum}
use chronik.SlpBatch.{OutpointEntry}
use chronik.Utxos.Defs.{
  UtxoEntry, UtxoData, UtxosError, already_exists, doesnt_exist, data_of, search_entry,
  block_outputs, block_inputs, push_all,
}

pub data Changed (A : Type 0) : Type 0 where
  changed : A → Changed A
  inconsistent : UtxosError → Changed A

abbrev pub then_all :
    (List UtxoData → Changed (List UtxoData)) → Changed (List UtxoData) → Changed (List UtxoData)
then_all f (changed entries) = f entries
then_all f (inconsistent e) = inconsistent e

abbrev pub insert_new : UtxoData → List UtxoData → Search → Changed (List UtxoData)
insert_new d entries (absent i) = changed (insert_at i d entries)
insert_new d entries (found i) = inconsistent (already_exists d.outpoint)

abbrev pub remove_old : OutpointEntry → List UtxoData → Search → Changed (List UtxoData)
remove_old o entries (found i) = changed (remove_at i entries)
remove_old o entries (absent i) = inconsistent (doesnt_exist o)

unfoldable pub insert_all : List UtxoEntry → List UtxoData → Changed (List UtxoData)
insert_all [] entries = changed entries
insert_all (e ∷ es) entries =
    then_all (insert_all es) (insert_new (data_of e) entries (search_entry e.outpoint entries))

unfoldable pub remove_all : List OutpointEntry → List UtxoData → Changed (List UtxoData)
remove_all [] entries = changed entries
remove_all (o ∷ os) entries =
    then_all (remove_all os) (remove_old o entries (search_entry o entries))

-- `map` over the entries of a hash map.
abbrev pub update_values :
    {V : Type 0}
    → (Bytes → List V → Changed (List UtxoData))
    → HashMap Bytes (List V)
    → HashMap Bytes (Changed (List UtxoData))
update_values f m key = elim (m key) [ none ↦ none | some vs ↦ some (f key vs) ]

abbrev pub or_error : Option (Changed (List UtxoData)) → Option UtxosError → Option UtxosError
or_error none rest = rest
or_error (some (changed entries)) rest = rest
or_error (some (inconsistent e)) rest = some e

-- `collect::<Result<HashMap<_, _>>>`: an error at one of the keys, or all values.
abbrev pub first_error : List Bytes → HashMap Bytes (Changed (List UtxoData)) → Option UtxosError
first_error [] m = none
first_error (key ∷ keys) m = or_error (m key) (first_error keys m)

abbrev pub value_of : Option (Changed (List UtxoData)) → Option (List UtxoData)
value_of none = none
value_of (some (changed entries)) = some entries
value_of (some (inconsistent e)) = none

abbrev pub and_then_map :
    Option UtxosError
    → Changed (HashMap Bytes (List UtxoData))
    → Changed (HashMap Bytes (List UtxoData))
and_then_map none rest = rest
and_then_map (some e) rest = inconsistent e

-- The values after the deletions override those after the insertions.
abbrev pub override : Option (List UtxoData) → Option (List UtxoData) → Option (List UtxoData)
override (some entries) inserted = some entries
override none inserted = inserted

module _ (lib : ScriptLib) (db : HashMap Bytes (List UtxoData)) where
  abbrev pub insert_at_key : Bytes → List UtxoEntry → Changed (List UtxoData)
  insert_at_key key es = insert_all es (unwrap_or (db key) [])

  abbrev pub remove_at_key :
      HashMap Bytes (Changed (List UtxoData)) → Bytes → List OutpointEntry → Changed (List UtxoData)
  remove_at_key new_insert_utxos key os =
      remove_all os (unwrap_or (override (value_of (new_insert_utxos key)) (db key)) [])

  unfoldable pub new_insert_utxos :
      TxNum → List UnhashedTx → HashMap Bytes (Changed (List UtxoData))
  new_insert_utxos first_tx_num txs =
      update_values insert_at_key (push_all (block_outputs lib first_tx_num txs) HashMap.empty)

  unfoldable pub new_delete_utxos :
      TxNum
      → (ℕ → ℕ → TxOutput)
      → List UnhashedTx
      → List (List TxNum)
      → HashMap Bytes (Changed (List UtxoData))
  unfolding new_insert_utxos
  new_delete_utxos first_tx_num spent txs input_tx_nums =
      update_values (remove_at_key (new_insert_utxos first_tx_num txs))
        (push_all (block_inputs lib spent txs input_tx_nums) HashMap.empty)

  -- The values to write, by key.
  unfoldable pub insert_block_txs :
      TxNum
      → (ℕ → ℕ → TxOutput)
      → List UnhashedTx
      → List (List TxNum)
      → Changed (HashMap Bytes (List UtxoData))
  unfolding new_insert_utxos new_delete_utxos
  insert_block_txs first_tx_num spent txs input_tx_nums =
      let inserts = new_insert_utxos first_tx_num txs in
      let deletes = new_delete_utxos first_tx_num spent txs input_tx_nums in
      and_then_map (first_error (map (λ item. item.0) (block_outputs lib first_tx_num txs)) inserts)
        (and_then_map
          (first_error (map (λ item. item.0) (block_inputs lib spent txs input_tx_nums)) deletes)
          (changed (λ key. override (value_of (deletes key)) (value_of (inserts key)))))
