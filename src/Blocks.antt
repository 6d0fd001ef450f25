-- ===== src/Blocks.antt =====
-- chronik-rocksdb/src/blocks.rs: the blocks of the best chain by height. A height is not negative.
pub mod Laws
use chronik.Prelude.{
  ℕ, ◌-◌, ℤ, pos, negsuc, Option, none, some, List, [], ◌∷◌, nat_eq, if◌then◌else◌,
}
use chronik.Std.HashMap.{HashMap}
use chronik.Chain.{Bytes, Sha256d}
use chronik.Column.{Column, Write, put, delete}
use chronik.Index
use chronik.Index.{Indexable, hit, miss, inconsistent}
use chronik.Txs.{BlockHeight}

pub record Block : Type 0 where
  pub hash : Sha256d
  pub prev_hash : Sha256d
  pub height : BlockHeight
  pub n_bits : ℕ
  pub timestamp : ℤ
  pub file_num : ℕ
  pub data_pos : ℕ

pub record BlockData : Type 0 where
  pub hash : Sha256d
  pub n_bits : ℕ
  pub timestamp : ℤ
  pub file_num : ℕ
  pub data_pos : ℕ

-- `Result`, with the errors `OrphanBlock` and `InconsistentDatabase`.
pub data BlocksResult (A : Type 0) : Type 0 where
  ok : A → BlocksResult A
  orphan_block : BlockHeight → BlocksResult A
  inconsistent_database : BlocksResult A

abbrev pub block_data_of : Block → BlockData
block_data_of b = record {
  hash = b.hash;
  n_bits = b.n_bits;
  timestamp = b.timestamp;
  file_num = b.file_num;
  data_pos = b.data_pos;
}

abbrev pub block_of : Sha256d → BlockHeight → BlockData → Block
block_of prev_hash height d = record {
  hash = d.hash;
  prev_hash = prev_hash;
  height = height;
  n_bits = d.n_bits;
  timestamp = d.timestamp;
  file_num = d.file_num;
  data_pos = d.data_pos;
}

abbrev pub block_indexable : (Sha256d → ℕ) → (BlockHeight → Bytes) → Indexable BlockData
block_indexable hash as_bytes = record {
  hash = hash;
  get_value_key = λ d. d.hash;
  as_bytes = as_bytes;
}

-- What a method adds to the batch, by column.
pub record BlockBatch : Type 0 where
  pub blocks : List (Write BlockData)
  pub blocks_index_by_hash : List (ℕ × Bytes)

module _ (column : Column BlockData) (x : Indexable BlockData) where
  abbrev pub insert : Block → BlockBatch
  insert block = record {
    blocks = put block.height (block_data_of block) ∷ [];
    blocks_index_by_hash = Index.insert x block.height (block_data_of block) ∷ [];
  }

  abbrev pub delete_by_height_and_hash : BlockHeight → Sha256d → BlockBatch
  delete_by_height_and_hash height hash = record {
    blocks = delete height ∷ [];
    blocks_index_by_hash = Index.delete x height hash ∷ [];
  }

  abbrev pub no_changes : BlockBatch
  no_changes = record { blocks = []; blocks_index_by_hash = [] }

  unfoldable pub delete_by_height : column.State → BlockHeight → BlockBatch
  delete_by_height blocks height = elim (column.get blocks height) [
    | none ↦ no_changes
    | some d ↦ delete_by_height_and_hash height d.hash
  ]

  unfoldable pub delete_by_hash :
      column.State → HashMap ℕ (List ℕ) → Sha256d → BlocksResult BlockBatch
  delete_by_hash blocks index hash = elim (Index.get x (column.get blocks) index hash) [
    | miss ↦ ok no_changes
    | inconsistent ↦ inconsistent_database
    | hit height d ↦ ok (delete_by_height_and_hash height hash)
  ]

  -- `BlockReader::height`
  unfoldable pub height : column.State → ℤ
  height blocks = elim (column.last blocks) [ none ↦ negsuc 0 | some item ↦ pos item.0 ]

  unfoldable pub get_prev_hash : column.State → BlockHeight → BlocksResult Sha256d
  get_prev_hash blocks height =
      if nat_eq height 0
      then ok 0
      else elim (column.get blocks (height - 1)) [ none ↦ orphan_block height | some d ↦ ok d.hash ]

  -- The block, once the hash of the previous one is known.
  abbrev pub with_prev :
      BlockHeight → BlockData → BlocksResult Sha256d → BlocksResult (Option Block)
  with_prev height d (ok prev_hash) = ok (some (block_of prev_hash height d))
  with_prev height d (orphan_block h) = orphan_block h
  with_prev height d inconsistent_database = inconsistent_database

  unfoldable pub tip : column.State → BlocksResult (Option Block)
  unfolding get_prev_hash
  tip blocks = elim (column.last blocks) [
    | none ↦ ok none
    | some item ↦ with_prev item.0 item.1 (get_prev_hash blocks item.0)
  ]

  unfoldable pub by_height : column.State → BlockHeight → BlocksResult (Option Block)
  unfolding get_prev_hash
  by_height blocks height = elim (column.get blocks height) [
    | none ↦ ok none
    | some d ↦ with_prev height d (get_prev_hash blocks height)
  ]

  unfoldable pub by_hash : column.State → HashMap ℕ (List ℕ) → Sha256d → BlocksResult (Option Block)
  unfolding get_prev_hash
  by_hash blocks index hash = elim (Index.get x (column.get blocks) index hash) [
    | miss ↦ ok none
    | inconsistent ↦ inconsistent_database
    | hit height d ↦ with_prev height (record d { hash = hash }) (get_prev_hash blocks height)
  ]
