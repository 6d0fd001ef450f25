-- ===== src/Tests/ScriptUtxos.antt =====
-- A script with two outputs in the database, of which the mempool spends one, and adds another.
use chronik.Prelude.{ℕ, ◌+◌, ◌≡◌, refl, false, true, pos, none, some, [], ◌∷◌}
use chronik.Std.Ord.{◌==◌, nat_ord}
use chronik.Std.HashMap.{empty}
use chronik.Chain.{OutPoint, outpoint_ord}
use chronik.ScriptPayload.{ScriptPayload, PayloadPrefix}
use chronik.Slp.{SlpTxType}
use chronik.Txs.{BlockTx}
use chronik.Utxos.{UtxoEntry}
use chronik.MempoolData.{MempoolData}
use chronik.ScriptUtxos.{UtxosReader, ok, script_utxos}
use chronik.ScriptUtxos.Laws.{
  StoredOutput, PendingOutput, stored_utxo, pending_utxo, script_utxos-unspent,
}
use chronik.Std.BTreeSet.{contains}
use chronik.Tests.Chain.{tx_entry, genesis_block}
use chronik.Tests.Fixture.{toy_scripts, parent, parent_entry, pay_to, no_data}

abbrev script : ScriptPayload
script = record { payload_prefix = PayloadPrefix.p2pkh; payload_data = 5 ∷ [] }

abbrev output_of : ℕ → ℕ → OutPoint
output_of txid out_idx = record { txid = txid; out_idx = out_idx }

abbrev stored_output : ℕ → ℕ → UtxoEntry
stored_output tx_num out_idx = record {
  outpoint = record { tx_num = tx_num; out_idx = out_idx };
  value = pos 10;
  is_partial_script = true;
}

abbrev stored_tx : ℕ → BlockTx
stored_tx tx_num = record { entry = tx_entry (7 + tx_num); block_height = 0 }

abbrev chain : UtxosReader SlpTxType
chain = record {
  utxos = λ payload. stored_output 0 0 ∷ stored_output 1 1 ∷ [];
  by_tx_num = λ tx_num. some (stored_tx tx_num);
  by_height = λ height. some genesis_block;
  slp_data_by_tx_num = λ tx_num. some none;
  raw_tx = λ file_num entry. some parent;
  mempool_slp = empty;
  tx_type_variant = λ t. t;
  default_token = record { amount = pos 0; is_mint_baton = false };
}

abbrev pending : MempoolData
pending = record no_data {
  txs = λ txid. some parent_entry;
  utxos = λ key. some (record { inserts = output_of 1 0 ∷ []; deletes = output_of 7 0 ∷ [] });
}

-- The outputs 0 and 1 of the transactions 7 and 8 are stored, and the mempool adds one of 1.
abbrev stored : ℕ → StoredOutput
stored n = record {
  utxo = stored_output n n;
  tx = stored_tx n;
  block = genesis_block;
  output = pay_to (5 + n);
  slp = none;
}

abbrev added : PendingOutput
added = record { outpoint = output_of 1 0; entry = parent_entry; output = pay_to 5 }

script_utxos-unspent_example :
    script_utxos toy_scripts pending chain script
    ≡ ok (
        stored_utxo toy_scripts pending chain (stored 1)
        ∷ pending_utxo toy_scripts pending chain added
        ∷ [])
unfolding contains ◌==◌ nat_ord outpoint_ord
script_utxos-unspent_example =
    script_utxos-unspent toy_scripts pending chain script (stored 0 ∷ stored 1 ∷ []) (added ∷ [])
      refl refl
      (
        record {
          has_tx = refl;
          has_block = refl;
          has_output = (parent, refl, refl);
          has_slp = refl;
        },
        (
          record {
            has_tx = refl;
            has_block = refl;
            has_output = (parent, refl, refl);
            has_slp = refl;
          },
          tt,
        ),
      )
      (record { has_entry = refl; has_output = refl }, tt)
