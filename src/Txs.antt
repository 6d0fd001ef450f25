-- ===== src/Txs.antt =====
-- chronik-rocksdb/src/txs.rs: the transactions of the blocks, in the order of their numbers, and the
-- heights of their blocks. A block height is not negative.
pub mod Laws
pub mod ByTxid
use chronik.Prelude.{
  ℕ, ◌+◌, ℤ, Bool, true, false, not, Option, none, some, List, [], ◌∷◌, map, enumerate, nat_eq, leb,
  if◌then◌else◌,
}
use chronik.Std.HashMap.{HashMap}
use chronik.Chain.{Bytes, Sha256d}
use chronik.Slp.{TxNum}
use chronik.Column.{Column, Write, put, delete, write_all}
use chronik.Index
use chronik.Index.{Indexable, Indexed, hit, miss, inconsistent}

abbrev pub BlockHeight : Type 0
BlockHeight = ℕ

pub record TxEntry : Type 0 where
  pub txid : Sha256d
  pub data_pos : ℕ
  pub tx_size : ℕ
  pub undo_pos : ℕ
  pub undo_size : ℕ
  pub time_first_seen : ℤ
  pub is_coinbase : Bool

pub record BlockTx : Type 0 where
  pub entry : TxEntry
  pub block_height : BlockHeight

pub record BlockTxs : Type 0 where
  pub txs : List TxEntry
  pub block_height : BlockHeight

pub record TxData : Type 0 where
  pub txid : Sha256d
  pub data_pos : ℕ
  pub tx_size : ℕ
  pub undo_pos : ℕ
  pub undo_size : ℕ
  pub time_first_seen : ℤ
  pub is_coinbase : ℕ

-- `Result`, with the errors `NoSuchBlock`, `InconsistentTxIndex` and `InconsistentDatabase`.
pub data TxsResult (A : Type 0) : Type 0 where
  ok : A → TxsResult A
  no_such_block inconsistent_tx_index inconsistent_database : TxsResult A

-- `tx.is_coinbase as u8`
abbrev pub bool_byte : Bool → ℕ
bool_byte true = 1
bool_byte false = 0

abbrev pub tx_data_of : TxEntry → TxData
tx_data_of tx = record {
  txid = tx.txid;
  data_pos = tx.data_pos;
  tx_size = tx.tx_size;
  undo_pos = tx.undo_pos;
  undo_size = tx.undo_size;
  time_first_seen = tx.time_first_seen;
  is_coinbase = bool_byte tx.is_coinbase;
}

abbrev pub tx_entry_of : TxData → TxEntry
tx_entry_of d = record {
  txid = d.txid;
  data_pos = d.data_pos;
  tx_size = d.tx_size;
  undo_pos = d.undo_pos;
  undo_size = d.undo_size;
  time_first_seen = d.time_first_seen;
  is_coinbase = not (nat_eq d.is_coinbase 0);
}

-- `TxIndexable`; the hash of a transaction id and the bytes of a number are parameters.
abbrev pub tx_indexable : (Sha256d → ℕ) → (TxNum → Bytes) → Indexable TxData
tx_indexable hash as_bytes = record {
  hash = hash;
  get_value_key = λ d. d.txid;
  as_bytes = as_bytes;
}

-- What a method adds to the batch, by column.
pub record TxBatch : Type 0 where
  pub txs : List (Write TxData)
  pub block_by_first_tx : List (Write BlockHeight)
  pub first_tx_by_block : List (Write TxNum)
  pub tx_index_by_txid : List (ℕ × Bytes)

-- The items of an iterator before the end of a block.
abbrev pub before_end : Option TxNum → List (TxNum × TxData) → List (TxNum × TxData)
before_end end_tx_num [] = []
before_end none (item ∷ items) = item ∷ items
before_end (some end_tx_num) (item ∷ items) =
    let rest = before_end (some end_tx_num) items in
    if leb end_tx_num item.0 then [] else item ∷ rest

module _ (data_column : Column TxData) (number_column : Column ℕ) (x : Indexable TxData) where
  pub record TxColumns : Type 0 where
    pub txs : data_column.State
    pub block_by_first_tx : number_column.State
    pub first_tx_by_block : number_column.State
    pub tx_index_by_txid : HashMap ℕ (List ℕ)

  abbrev pub next_tx_num : TxColumns → TxNum
  next_tx_num s = elim (data_column.last s.txs) [ none ↦ 0 | some item ↦ item.0 + 1 ]

  -- `TxWriter::insert_block_txs`
  unfoldable pub insert_block_txs : TxColumns → BlockTxs → TxNum × TxBatch
  insert_block_txs s block =
      let first_new_tx = next_tx_num s in
      let items = enumerate first_new_tx (map tx_data_of block.txs) in
      (
        first_new_tx,
        record {
          txs = map (λ item. put item.0 item.1) items;
          block_by_first_tx = put first_new_tx block.block_height ∷ [];
          first_tx_by_block = put block.block_height first_new_tx ∷ [];
          tx_index_by_txid = map (λ item. Index.insert x item.0 item.1) items;
        },
      )

  -- The transactions that `TxWriter::delete_block_txs` deletes.
  abbrev pub deleted_txs : TxColumns → BlockHeight → TxNum → List (TxNum × TxData)
  deleted_txs s block_height first_tx_num =
      before_end (number_column.get s.first_tx_by_block (block_height + 1))
        (data_column.from s.txs first_tx_num)

  abbrev pub delete_batch : TxColumns → BlockHeight → TxNum → TxBatch
  delete_batch s block_height first_tx_num = record {
    txs = map (λ item. delete item.0) (deleted_txs s block_height first_tx_num);
    block_by_first_tx = delete first_tx_num ∷ [];
    first_tx_by_block = delete block_height ∷ [];
    tx_index_by_txid =
        map (λ item. Index.delete x item.0 item.1.txid) (deleted_txs s block_height first_tx_num);
  }

  unfoldable pub delete_block_txs : TxColumns → BlockHeight → TxsResult TxBatch
  delete_block_txs s block_height = elim (number_column.get s.first_tx_by_block block_height) [
    | none ↦ no_such_block
    | some first_tx_num ↦ ok (delete_batch s block_height first_tx_num)
  ]

  -- The columns after the writes of a batch; the merged index is given.
  unfoldable pub after_batch : TxBatch → HashMap ℕ (List ℕ) → TxColumns → TxColumns
  after_batch batch index s = record {
    txs = write_all data_column batch.txs s.txs;
    block_by_first_tx = write_all number_column batch.block_by_first_tx s.block_by_first_tx;
    first_tx_by_block = write_all number_column batch.first_tx_by_block s.first_tx_by_block;
    tx_index_by_txid = index;
  }

  unfoldable pub block_height_by_tx_num : TxColumns → TxNum → TxsResult BlockHeight
  block_height_by_tx_num s tx_num = elim (number_column.at_or_before s.block_by_first_tx tx_num) [
    | none ↦ inconsistent_tx_index
    | some item ↦ ok item.1
  ]

  abbrev pub block_tx : TxData → TxsResult BlockHeight → TxsResult BlockTx
  block_tx d (ok height) = ok (record { entry = tx_entry_of d; block_height = height })
  block_tx d no_such_block = no_such_block
  block_tx d inconsistent_tx_index = inconsistent_tx_index
  block_tx d inconsistent_database = inconsistent_database

  abbrev pub map_ok : {A B : Type 0} → (A → B) → TxsResult A → TxsResult B
  map_ok f (ok a) = ok (f a)
  map_ok f no_such_block = no_such_block
  map_ok f inconsistent_tx_index = inconsistent_tx_index
  map_ok f inconsistent_database = inconsistent_database

  unfoldable pub tx_and_num_by_txid : TxColumns → Sha256d → TxsResult (Option (TxNum × BlockTx))
  unfolding block_height_by_tx_num
  tx_and_num_by_txid s txid = elim (Index.get x (data_column.get s.txs) s.tx_index_by_txid txid) [
    | miss ↦ ok none
    | inconsistent ↦ inconsistent_database
    | hit tx_num d ↦ map_ok (λ tx. some (tx_num, tx)) (block_tx d (block_height_by_tx_num s tx_num))
  ]

  unfoldable pub by_txid : TxColumns → Sha256d → TxsResult (Option BlockTx)
  unfolding tx_and_num_by_txid
  by_txid s txid =
      map_ok (λ r. elim r [ none ↦ none | some item ↦ some item.1 ]) (tx_and_num_by_txid s txid)

  unfoldable pub tx_num_by_txid : TxColumns → Sha256d → TxsResult (Option TxNum)
  tx_num_by_txid s txid = elim (Index.get x (data_column.get s.txs) s.tx_index_by_txid txid) [
    | miss ↦ ok none
    | inconsistent ↦ inconsistent_database
    | hit tx_num d ↦ ok (some tx_num)
  ]

  unfoldable pub by_tx_num : TxColumns → TxNum → TxsResult (Option BlockTx)
  unfolding block_height_by_tx_num
  by_tx_num s tx_num = elim (data_column.get s.txs tx_num) [
    | none ↦ ok none
    | some d ↦ map_ok some (block_tx d (block_height_by_tx_num s tx_num))
  ]

  abbrev pub txid_by_tx_num : TxColumns → TxNum → Option Sha256d
  txid_by_tx_num s tx_num = elim (data_column.get s.txs tx_num) [
    | none ↦ none
    | some d ↦ some d.txid
  ]

  abbrev pub first_tx_num_by_block : TxColumns → BlockHeight → Option TxNum
  first_tx_num_by_block s block_height = number_column.get s.first_tx_by_block block_height

  abbrev pub last_tx_num : TxColumns → Option TxNum
  last_tx_num s = elim (data_column.last s.txs) [ none ↦ none | some item ↦ some item.0 ]
