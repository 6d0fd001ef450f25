-- ===== src/Blocks/Laws.antt =====
-- What the readers find of a chain that is extended.
use chronik.Prelude.{
  ℕ, ◌+◌, ◌-◌, ◌<◌, ◌≡◌, ◌∙◌, ap, Option, none, some, pos, arith, nat_eq, Option-cases, ◌⊎◌, inl,
  inr, if◌then◌else◌,
}
use chronik.Column.{Column, put, delete, write_all}
use chronik.Index.{Indexable}
use chronik.Blocks.{
  Block, BlockData, ok, block_data_of, insert, get_prev_hash, tip, by_height, height,
  delete_by_height, delete_by_height_and_hash,
}

-- The block extends the chain: it has the hash of the block below, or is the first one.
abbrev pub Extends : (ℕ → Option BlockData) → Block → Type 0
Extends lookup block =
    ((block.height ≡ 0) × (block.prev_hash ≡ 0))
    ⊎ ((n : ℕ) × (d : BlockData) × (block.height ≡ n + 1)
        × (lookup n ≡ some d)
        × (d.hash ≡ block.prev_hash))

module _ (column : Column BlockData) (x : Indexable BlockData) (blocks : column.State)
    (block : Block) where
  abbrev pub extended : column.State
  extended = write_all column (insert column x block).blocks blocks

  extended-get :
      (j : ℕ)
      → column.get extended j
        ≡ (if nat_eq j block.height then some (block_data_of block) else column.get blocks j)
  unfolding write_all
  extended-get j = column.get_write (put block.height (block_data_of block)) blocks j

  prev_found :
      Extends (column.get blocks) block
      → get_prev_hash column x extended block.height ≡ ok block.prev_hash
  unfolding get_prev_hash
  prev_found (inl e) = ground (arith, e.0, e.1)
  prev_found (inr (n, d, h, l, p)) = ground (arith, extended-get (block.height - 1), h, l, p)

  extended-last :
      ((k : ℕ) → block.height < k → column.get blocks k ≡ none)
      → column.last extended ≡ some (block.height, block_data_of block)
  extended-last top = elim (Option-cases (column.last extended)) [
    | inl e ↦ ground (arith, column.last_none extended e block.height, extended-get block.height)
    | inr e ↦
        let found = column.last_some extended e.0.0 e.0.1 e.1 in
        ground (
          arith,
          e.1,
          found.0,
          found.1 block.height,
          extended-get block.height,
          extended-get e.0.0,
          top e.0.0,
        )
  ]

  deleted_block :
      delete_by_height column x extended block.height
      ≡ delete_by_height_and_hash column x block.height block.hash
  unfolding delete_by_height
  deleted_block = ground (arith, extended-get block.height)

  -- A block that extends the chain at its top is read by its height, and as the tip, as it was given;
  -- the chain has its height; and its deletion by height takes exactly this block away again.
  pub insert-tip :
      Extends (column.get blocks) block
      → ((k : ℕ) → block.height < k → column.get blocks k ≡ none)
      → (by_height column x extended block.height ≡ ok (some block))
        × (tip column x extended ≡ ok (some block))
        × (height column x extended ≡ pos block.height)
        × ((j : ℕ)
            → column.get
                (write_all column (delete_by_height column x extended block.height).blocks extended)
                j
              ≡ (if nat_eq j block.height then none else column.get blocks j))
  unfolding by_height tip height delete_by_height write_all
  insert-tip e top = (
    ground (arith, extended-get block.height, prev_found e),
    ground (arith, extended-last top, prev_found e),
    ground (arith, extended-last top),
    λ j.
        ap (λ b. column.get (write_all column b.blocks extended) j) deleted_block
        ∙ column.get_write (delete block.height) extended j
        ∙ ground (arith, extended-get j),
  )
