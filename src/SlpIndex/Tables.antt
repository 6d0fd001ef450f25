-- ===== src/SlpIndex/Tables.antt =====
-- chronik-rocksdb/src/slp.rs: the column families of the SLP index, and the writes to them.
use chronik.Prelude.{ℕ, List, [], ◌∷◌}
use chronik.Std.HashMap.{HashMap}
use chronik.Chain.{Bytes}
use chronik.Slp.{TokenId, TxNum, TokenStats}
use chronik.Column.{Column, Write, written}
use chronik.SlpIndex.Entry.{TokenNum, SerSlpTxEntry}

-- The column that is iterated is an interface; the others are what they hold for each key. The number
-- of the genesis information stands for it.
pub record SlpTables (ids : Column TokenId) : Type 0 where
  pub token_id_by_num : ids.State
  pub token_num_by_id : HashMap TokenId TokenNum
  pub token_metadata : HashMap TokenNum ℕ
  pub slp_tx_data : HashMap TxNum SerSlpTxEntry
  pub slp_tx_invalid_message : HashMap TxNum Bytes
  pub token_stats : HashMap TokenNum TokenStats

-- `put_cf` and `delete_cf`, by column.
pub data SlpWrite : Type 0 where
  write_token_id : Write TokenId → SlpWrite
  write_token_num : Write TokenNum → SlpWrite
  write_metadata : Write ℕ → SlpWrite
  write_tx_data : Write SerSlpTxEntry → SlpWrite
  write_invalid_message : Write Bytes → SlpWrite
  write_stats : Write TokenStats → SlpWrite

module _ (ids : Column TokenId) where
  abbrev pub apply : SlpWrite → SlpTables ids → SlpTables ids
  apply (write_token_id w) t = record t { token_id_by_num = ids.write w t.token_id_by_num }
  apply (write_token_num w) t = record t { token_num_by_id = written w t.token_num_by_id }
  apply (write_metadata w) t = record t { token_metadata = written w t.token_metadata }
  apply (write_tx_data w) t = record t { slp_tx_data = written w t.slp_tx_data }
  apply (write_invalid_message w) t = record t {
    slp_tx_invalid_message = written w t.slp_tx_invalid_message;
  }
  apply (write_stats w) t = record t { token_stats = written w t.token_stats }

  -- A batch is written in its order.
  unfoldable pub commit : List SlpWrite → SlpTables ids → SlpTables ids
  commit [] t = t
  commit (w ∷ ws) t = commit ws (apply w t)
