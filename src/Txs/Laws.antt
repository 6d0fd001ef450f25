-- ===== src/Txs/Laws.antt =====
-- What is stored of the transactions of a block that is connected, and of one that is disconnected.
use chronik.Prelude.{
  ℕ, zero, suc, ◌+◌, ◌≤◌, ◌<◌, ◌≡◌, refl, ◌∙◌, ap, Option, none, some, List, [], ◌∷◌, map, any, All,
  arith, nat_eq, enumerate, get_elem?, Option-cases, ◌⊎◌, inl, inr, if◌then◌else◌,
}
use chronik.Std.HashMap.{HashMap, is_some}
use chronik.Std.Keyed.{or_else}
use chronik.Slp.{TxNum}
use chronik.Column.{Column, put, delete, find, write_all}
use chronik.Column.Writes.{enumerate-Ascends, find-below, find-enumerate, get-puts, get-deletes}
use chronik.Index.{Indexable}
use chronik.Txs.{
  BlockHeight, TxEntry, BlockTxs, TxData, TxBatch, ok, tx_data_of, tx_entry_of, before_end,
  TxColumns, next_tx_num, insert_block_txs, deleted_txs, delete_batch, delete_block_txs,
  after_batch, block_height_by_tx_num, by_tx_num,
}

pub entry_data : (tx : TxEntry) → tx_entry_of (tx_data_of tx) ≡ tx
entry_data tx = ground arith

pub get_elem-map :
    (txs : List TxEntry) (i : ℕ) (tx : TxEntry)
    → get_elem? txs i ≡ some tx
    → get_elem? (map tx_data_of txs) i ≡ some (tx_data_of tx)
get_elem-map [] i tx h = ground (arith, h)
get_elem-map (t ∷ txs) zero tx h = ground (arith, h)
get_elem-map (t ∷ txs) (suc i) tx h = get_elem-map txs i tx h

before_end-none : (items : List (TxNum × TxData)) → before_end none items ≡ items
before_end-none [] = refl
before_end-none (item ∷ items) = refl

find-any :
    {V : Type 0} (j : ℕ) (items : List (ℕ × V))
    → is_some (find j items) ≡ any (λ e. nat_eq e.0 j) items
find-any j [] = refl
find-any j ((k, v) ∷ items) = ground (arith, find-any j items)

find_under :
    {V : Type 0} (m : ℕ → Option V) (n j : ℕ) (items : List (ℕ × V))
    → All (λ e. (m e.0 ≡ some e.1) × (n ≤ e.0)) items
    → j < n
    → find j items ≡ none
find_under m n j [] h l = refl
find_under m n j ((k, v) ∷ items) h l = ground (arith, find_under m n j items h.1 l, h.0.1, l)

pub split : (j n : ℕ) → (j < n) ⊎ (n ≤ j)
split j n = ground arith

module _ (data_column : Column TxData) (number_column : Column ℕ) (x : Indexable TxData)
    (s : TxColumns data_column number_column x) where
  -- The next number is free, and all above.
  pub next_tx_num_free :
      (j : TxNum) → next_tx_num data_column number_column x s ≤ j → data_column.get s.txs j ≡ none
  next_tx_num_free j h = elim (Option-cases (data_column.last s.txs)) [
    | inl e ↦ data_column.last_none s.txs e j
    | inr e ↦ (data_column.last_some s.txs e.0.0 e.0.1 e.1).1 j (ground (arith, h, e.1))
  ]

  module _ (block : BlockTxs) (index : HashMap ℕ (List ℕ)) where
    abbrev pub inserted : TxColumns data_column number_column x
    inserted =
        after_batch data_column number_column x
          (insert_block_txs data_column number_column x s block).1 index s

    pub inserted_txs :
        (j : TxNum)
        → data_column.get inserted.txs j
          ≡ or_else
              (find j
                (enumerate (next_tx_num data_column number_column x s) (map tx_data_of block.txs)))
              (data_column.get s.txs j)
    unfolding after_batch insert_block_txs
    inserted_txs j =
        get-puts data_column
          (enumerate (next_tx_num data_column number_column x s) (map tx_data_of block.txs)) s.txs j
          (enumerate-Ascends (next_tx_num data_column number_column x s) (map tx_data_of block.txs))

    pub inserted_heights :
        (j : TxNum)
        → number_column.get inserted.block_by_first_tx j ≡ (
            if nat_eq j (next_tx_num data_column number_column x s)
            then some block.block_height
            else number_column.get s.block_by_first_tx j)
    unfolding after_batch insert_block_txs write_all
    inserted_heights j =
        number_column.get_write (put (next_tx_num data_column number_column x s) block.block_height)
          s.block_by_first_tx j

    pub inserted_firsts :
        (j : BlockHeight)
        → number_column.get inserted.first_tx_by_block j ≡ (
            if nat_eq j block.block_height
            then some (next_tx_num data_column number_column x s)
            else number_column.get s.first_tx_by_block j)
    unfolding after_batch insert_block_txs write_all
    inserted_firsts j =
        number_column.get_write (put block.block_height (next_tx_num data_column number_column x s))
          s.first_tx_by_block j

    -- The height that is found for a number of the block or above is the block's.
    pub inserted_height :
        (i : ℕ)
        → ((k : TxNum)
            → next_tx_num data_column number_column x s < k
            → number_column.get s.block_by_first_tx k ≡ none)
        → block_height_by_tx_num data_column number_column x inserted
            (next_tx_num data_column number_column x s + i)
          ≡ ok block.block_height
    unfolding block_height_by_tx_num
    inserted_height i top =
        let n = next_tx_num data_column number_column x s in
        elim (Option-cases (number_column.at_or_before inserted.block_by_first_tx (n + i))) [
          | inl e ↦ ground (
            arith,
            number_column.before_none inserted.block_by_first_tx (n + i) e n (omega arith),
            inserted_heights n,
          )
          | inr e ↦
              let found =
                number_column.before_some inserted.block_by_first_tx (n + i) e.0.0 e.0.1 e.1 in
              ground (
                arith,
                e.1,
                found.0,
                found.1,
                found.2 n,
                inserted_heights n,
                inserted_heights e.0.0,
                top e.0.0,
              )
        ]

    -- A transaction of a block that is connected is read by its number as it was given, with the height
    -- of its block, if no block was stored above the next free number.
    pub by_tx_num-insert_block_txs :
        (i : ℕ) (tx : TxEntry)
        → ((k : TxNum)
            → next_tx_num data_column number_column x s < k
            → number_column.get s.block_by_first_tx k ≡ none)
        → get_elem? block.txs i ≡ some tx
        → by_tx_num data_column number_column x inserted
            ((insert_block_txs data_column number_column x s block).0 + i)
          ≡ ok (some (record { entry = tx; block_height = block.block_height }))
    unfolding by_tx_num insert_block_txs
    by_tx_num-insert_block_txs i tx top h =
        let n = next_tx_num data_column number_column x s in
        ground (
          arith,
          inserted_txs (n + i),
          find-enumerate n i (map tx_data_of block.txs),
          get_elem-map block.txs i tx h,
          inserted_height i top,
          entry_data tx,
        )

    in_deleted :
        (j : TxNum)
        → (if is_some
              (find j (data_column.from inserted.txs (next_tx_num data_column number_column x s)))
            then none
            else data_column.get inserted.txs j)
          ≡ data_column.get s.txs j
    in_deleted j =
        let n = next_tx_num data_column number_column x s in
        let items = data_column.from inserted.txs n in
        elim (split j n) [
          | inl e ↦ ground (
            arith,
            find_under (data_column.get inserted.txs) n j items
                (data_column.from_get inserted.txs n) e,
            inserted_txs j,
            find-below j n (map tx_data_of block.txs) e,
          )
          | inr e ↦ elim (Option-cases (data_column.get inserted.txs j)) [
            | inl g ↦ ground (arith, g, next_tx_num_free j e)
            | inr g ↦ ground (
              arith,
              data_column.from_all inserted.txs n j g.0 g.1 e,
              find-any j items,
              next_tx_num_free j e,
            )
          ]
        ]

    unbounded :
        number_column.get s.first_tx_by_block (block.block_height + 1) ≡ none
        → deleted_txs data_column number_column x inserted block.block_height
            (next_tx_num data_column number_column x s)
          ≡ data_column.from inserted.txs (next_tx_num data_column number_column x s)
    unbounded next =
        let n = next_tx_num data_column number_column x s in
        ap (λ o. before_end o (data_column.from inserted.txs n)) {y = none}
          (ground (arith, inserted_firsts (block.block_height + 1), next))
        ∙ before_end-none (data_column.from inserted.txs n)

    -- If nothing was stored at the height of a block, at the next height and at the next free number,
    -- then the block, connected and then disconnected, leaves the three columns as they were; and the
    -- disconnection succeeds.
    pub delete-insert_block_txs :
        number_column.get s.first_tx_by_block block.block_height ≡ none
        → number_column.get s.first_tx_by_block (block.block_height + 1) ≡ none
        → number_column.get s.block_by_first_tx (next_tx_num data_column number_column x s) ≡ none
        → (batch : TxBatch) × (delete_block_txs data_column number_column x inserted
              block.block_height
            ≡ ok batch)
          × ((other : HashMap ℕ (List ℕ)) (j : ℕ)
              → (data_column.get
                    (after_batch data_column number_column x batch other inserted).txs
                    j
                  ≡ data_column.get s.txs j)
                × (number_column.get
                      (after_batch data_column number_column x batch other
                        inserted).block_by_first_tx
                      j
                    ≡ number_column.get s.block_by_first_tx j)
                × (number_column.get
                      (after_batch data_column number_column x batch other
                        inserted).first_tx_by_block
                      j
                    ≡ number_column.get s.first_tx_by_block j))
    unfolding delete_block_txs after_batch write_all
    delete-insert_block_txs height next start =
        let n = next_tx_num data_column number_column x s in
        (
          delete_batch data_column number_column x inserted block.block_height n,
          ground (arith, inserted_firsts block.block_height),
          λ other j. (
            get-deletes data_column
                  (deleted_txs data_column number_column x inserted block.block_height n)
                  inserted.txs j
                ∙ ap
                    (λ items.
                      if is_some (find j items) then none else data_column.get inserted.txs j)
                    (unbounded next)
                ∙ in_deleted j,
            number_column.get_write (delete n) inserted.block_by_first_tx j
                ∙ ground (arith, inserted_heights j, start),
            number_column.get_write (delete block.block_height) inserted.first_tx_by_block j
                ∙ ground (arith, inserted_firsts j, height),
          ),
        )
