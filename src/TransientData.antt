-- ===== src/TransientData.antt =====
-- chronik-rocksdb/src/transient_data.rs: the times at which the transactions of a block were first
-- seen, in a database of their own, which outlives a new indexing; and what chronik-indexer/src/
-- indexer.rs does with them. The bytes of a block's data are not modelled.
pub mod Laws
pub mod Update
pub mod CatchUp
use chronik.Prelude.{
  ℕ, zero, suc, ◌+◌, ◌-◌, ℤ, pos, Bool, true, false, Option, none, some, List, [], ◌∷◌, get_elem?,
  nat_eq, leb, if◌then◌else◌,
}
use chronik.Std.Ord.{◌==◌, int_ord}
use chronik.Std.HashMap.{unwrap_or}
use chronik.Chain.{Sha256d}
use chronik.Slp.{TxNum}
use chronik.Column.{Column, put, delete}
use chronik.Index.{Indexable}
use chronik.Txs.{
  BlockHeight, TxEntry, BlockTx, TxData, TxsResult, no_such_block, inconsistent_tx_index,
  inconsistent_database, TxColumns, by_tx_num, first_tx_num_by_block, last_tx_num,
}

pub record TransientTxData : Type 0 where
  pub txid_hash : ℕ
  pub time_first_seen : ℤ

-- `Result`, with the errors `NoSuchBlock` and `NoSuchTxNum`, and that of the reader of transactions.
pub data TransientResult (A : Type 0) : Type 0 where
  ok : A → TransientResult A
  no_such_block_at : BlockHeight → TransientResult A
  no_such_tx_num : TxNum → TransientResult A
  inconsistent_txs : TransientResult A

infixl 5 ◌>>=◌
abbrev pub ◌>>=◌ : {A B : Type 0} → TransientResult A → (A → TransientResult B) → TransientResult B
ok a >>= f = f a
no_such_block_at h >>= f = no_such_block_at h
no_such_tx_num n >>= f = no_such_tx_num n
inconsistent_txs >>= f = inconsistent_txs

module _ (blocks : Column (List TransientTxData)) where
  abbrev pub read_block : blocks.State → BlockHeight → Option (List TransientTxData)
  read_block s block_height = blocks.get s block_height

  unfoldable pub next_block_height : blocks.State → BlockHeight
  next_block_height s = elim (blocks.last s) [ none ↦ 0 | some item ↦ item.0 + 1 ]

  unfoldable pub delete_block : BlockHeight → blocks.State → blocks.State
  delete_block block_height s = blocks.write (delete block_height) s

-- The numbers `first .. first + count`.
abbrev pub numbers : TxNum → ℕ → List TxNum
numbers first zero = []
numbers first (suc count) = first ∷ numbers (first + 1) count

abbrev pub push_some : {A : Type 0} → Option A → List A → List A
push_some none rest = rest
push_some (some a) rest = a ∷ rest

-- `TransientBlockDataReader`
pub record TransientReader : Type 0 where
  pub tx_data : List TransientTxData
  pub tx_idx : ℕ

-- `hash` is `seahash::hash`.
module _ (hash : Sha256d → ℕ) where
  -- Nothing is kept of a transaction whose time is not known.
  abbrev pub transient_of : TxEntry → Option TransientTxData
  transient_of tx =
      if tx.time_first_seen == pos 0
      then none
      else some (record { txid_hash = hash tx.txid; time_first_seen = tx.time_first_seen })

  abbrev pub read_tx_data :
      TxNum → TxsResult (Option BlockTx) → TransientResult (Option TransientTxData)
  read_tx_data tx_num (TxsResult.ok none) = no_such_tx_num tx_num
  read_tx_data tx_num (TxsResult.ok (some tx)) = ok (transient_of tx.entry)
  read_tx_data tx_num no_such_block = inconsistent_txs
  read_tx_data tx_num inconsistent_tx_index = inconsistent_txs
  read_tx_data tx_num inconsistent_database = inconsistent_txs

  module _ (data_column : Column TxData) (number_column : Column ℕ) (x : Indexable TxData) where
    abbrev pub last_of_block : TxColumns data_column number_column x → BlockHeight → TxNum
    last_of_block t block_height =
        elim (first_tx_num_by_block data_column number_column x t (block_height + 1)) [
          | none ↦ unwrap_or (last_tx_num data_column number_column x t) 0 + 1
          | some next_tx_num ↦ next_tx_num
        ]

    unfoldable pub collect_tx_data :
        TxColumns data_column number_column x → List TxNum → TransientResult (List TransientTxData)
    collect_tx_data t [] = ok []
    collect_tx_data t (tx_num ∷ tx_nums) = do
      d ← read_tx_data tx_num (by_tx_num data_column number_column x t tx_num)
      rest ← collect_tx_data t tx_nums
      ok (push_some d rest)

    unfoldable pub block_tx_data :
        TxColumns data_column number_column x → BlockHeight → TransientResult (List TransientTxData)
    unfolding collect_tx_data
    block_tx_data t block_height =
        elim (first_tx_num_by_block data_column number_column x t block_height) [
          | none ↦ no_such_block_at block_height
          | some first ↦ collect_tx_data t (numbers first (last_of_block t block_height - first))
        ]

    module _ (blocks : Column (List TransientTxData)) where
      unfoldable pub update_block :
          TxColumns data_column number_column x
          → BlockHeight
          → blocks.State
          → TransientResult blocks.State
      unfolding block_tx_data
      update_block t block_height s = do
        tx_data ← block_tx_data t block_height
        ok (blocks.write (put block_height tx_data) s)

      -- `for block_height in next_block_height..=tip_height`
      unfoldable pub update_blocks :
          TxColumns data_column number_column x
          → BlockHeight
          → ℕ
          → blocks.State
          → TransientResult blocks.State
      unfolding update_block
      update_blocks t block_height zero s = ok s
      update_blocks t block_height (suc count) s = do
        s' ← update_block t block_height s
        update_blocks t (block_height + 1) count s'

      -- `SlpIndexer::update_transient_data`
      unfoldable pub update_transient_data :
          TxColumns data_column number_column x
          → BlockHeight
          → blocks.State
          → TransientResult blocks.State
      unfolding next_block_height update_blocks
      update_transient_data t tip_height s =
          let next = next_block_height blocks s in
          if leb (next + 12) tip_height
          then ok s
          else update_blocks t next (tip_height + 1 - next) s

  abbrev pub read_next :
      Option TransientTxData → Sha256d → TransientReader → Option TransientTxData × TransientReader
  read_next none txid r = (none, r)
  read_next (some d) txid r =
      if nat_eq d.txid_hash (hash txid)
      then (some d, record r { tx_idx = r.tx_idx + 1 })
      else (none, r)

  unfoldable pub read_for_next_txid :
      TransientReader → Sha256d → Option TransientTxData × TransientReader
  read_for_next_txid r txid = read_next (get_elem? r.tx_data r.tx_idx) txid r

  -- The time of a transaction of a block that is connected: of the mempool, or else of the data; 0 is
  -- not known.
  abbrev pub seen_or_zero : Option TransientTxData → ℤ
  seen_or_zero none = pos 0
  seen_or_zero (some d) = d.time_first_seen

  abbrev pub time_or_read : Option ℤ → TransientReader → Sha256d → ℤ × TransientReader
  time_or_read (some time) r txid = (time, r)
  time_or_read none r txid =
      let found = read_for_next_txid r txid in (seen_or_zero found.0, found.1)

  -- `mempool_time` is the time of an entry of the mempool.
  unfoldable pub times_first_seen : (Sha256d → Option ℤ) → TransientReader → List Sha256d → List ℤ
  unfolding read_for_next_txid
  times_first_seen mempool_time r [] = []
  times_first_seen mempool_time r (txid ∷ txids) =
      let first = time_or_read (mempool_time txid) r txid in
      first.0 ∷ times_first_seen mempool_time first.1 txids
