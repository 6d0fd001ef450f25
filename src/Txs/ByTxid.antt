-- ===== src/Txs/ByTxid.antt =====
-- A transaction of a block that is connected is found by its id, also where hashes collide.
use chronik.Prelude.{
  ℕ, ◌+◌, ◌<◌, ◌≡◌, refl, ◌∙◌, sym, ap, Option, none, some, List, map, arith, enumerate, get_elem?,
  inl, inr,
}
use chronik.Std.HashMap.{HashMap}
use chronik.Chain.{Bytes, Sha256d}
use chronik.Slp.{TxNum}
use chronik.Column.{Column}
use chronik.Column.Writes.{enumerate-Ascends, find-below, find-enumerate}
use chronik.Index
use chronik.Index.{Indexed, hit, miss, inconsistent}
use chronik.Index.Laws.{is_listed, Finds, get-Finds}
use chronik.Index.Merges.{Kept, Merged, insert-Kept}
use chronik.Txs.{
  BlockHeight, TxEntry, BlockTx, BlockTxs, TxData, TxBatch, TxsResult, ok, tx_data_of, tx_indexable,
  TxColumns, next_tx_num, insert_block_txs, block_height_by_tx_num, tx_and_num_by_txid,
}
use chronik.Txs.Laws.{
  get_elem-map, entry_data, split, next_tx_num_free, inserted, inserted_txs, inserted_height,
}

module _ (data_column : Column TxData) (number_column : Column ℕ) (hash : Sha256d → ℕ)
    (as_bytes : TxNum → Bytes) (interpret : Bytes → Option ℕ)
    (reads : (n : ℕ) → interpret (as_bytes n) ≡ some n)
    (s : TxColumns data_column number_column (tx_indexable hash as_bytes)) (block : BlockTxs)
    (index : HashMap ℕ (List ℕ)) where
  found_by_txid :
      (after : TxColumns data_column number_column (tx_indexable hash as_bytes)) (tx : TxEntry)
      (n : TxNum) (height : BlockHeight)
      → data_column.get after.txs n ≡ some (tx_data_of tx)
      → ((j : TxNum) (d : TxData) → data_column.get after.txs j ≡ some d → d.txid ≡ tx.txid → j ≡ n)
      → block_height_by_tx_num data_column number_column (tx_indexable hash as_bytes) after n
        ≡ ok height
      → Finds (tx_indexable hash as_bytes) (data_column.get after.txs) tx.txid (
          Index.get
            (tx_indexable hash as_bytes)
            (data_column.get after.txs)
            after.tx_index_by_txid
            tx.txid)
      → tx_and_num_by_txid data_column number_column (tx_indexable hash as_bytes) after tx.txid
        ≡ ok (some (n, record { entry = tx; block_height = height }))
  unfolding tx_and_num_by_txid
  found_by_txid after tx n height here unique at_height finds =
      by_result
        (Index.get (tx_indexable hash as_bytes) (data_column.get after.txs) after.tx_index_by_txid
          tx.txid)
        refl finds
    where
      by_result :
          (r : Indexed TxData)
          → Index.get
              (tx_indexable hash as_bytes)
              (data_column.get after.txs)
              after.tx_index_by_txid
              tx.txid
            ≡ r
          → Finds (tx_indexable hash as_bytes) (data_column.get after.txs) tx.txid r
          → tx_and_num_by_txid data_column number_column (tx_indexable hash as_bytes) after tx.txid
            ≡ ok (some (n, record { entry = tx; block_height = height }))
      by_result (hit m d) e f =
          ground (arith, e, f.0, unique m d f.0 f.1, here, at_height, entry_data tx)
      by_result miss e f = elim (f n (tx_data_of tx) here refl) [ ]
      by_result inconsistent e f = elim f [ ]

  -- A transaction of a block that is connected is found by its id, with its number, as it was given and with
  -- the height of its block: if every stored transaction was listed in the index and nothing else, the
  -- batch is merged into the index, no block was stored above the next free number, and no other
  -- transaction has this id.
  pub tx_and_num_by_txid-insert_block_txs :
      (i : ℕ) (tx : TxEntry)
      → Kept (tx_indexable hash as_bytes) interpret reads (data_column.get s.txs) s.tx_index_by_txid
      → Merged
          (tx_indexable hash as_bytes)
          interpret
          reads
          s.tx_index_by_txid
          (insert_block_txs data_column number_column
            (tx_indexable hash as_bytes)
            s
            block).1.tx_index_by_txid
          index
      → ((k : TxNum)
          → next_tx_num data_column number_column (tx_indexable hash as_bytes) s < k
          → number_column.get s.block_by_first_tx k ≡ none)
      → get_elem? block.txs i ≡ some tx
      → ((j : TxNum) (d : TxData)
          → data_column.get
              (inserted data_column number_column (tx_indexable hash as_bytes) s block index).txs
              j
            ≡ some d
          → d.txid ≡ tx.txid
          → j ≡ next_tx_num data_column number_column (tx_indexable hash as_bytes) s + i)
      → tx_and_num_by_txid data_column number_column
          (tx_indexable hash as_bytes)
          (inserted data_column number_column (tx_indexable hash as_bytes) s block index)
          tx.txid
        ≡ ok (
            some (
              next_tx_num data_column number_column (tx_indexable hash as_bytes) s + i,
              record { entry = tx; block_height = block.block_height },
            ))
  unfolding insert_block_txs chronik.Txs.after_batch
  tx_and_num_by_txid-insert_block_txs i tx kept merged top at unique =
      let x = tx_indexable hash as_bytes in
      let n = next_tx_num data_column number_column x s in
      let after = inserted data_column number_column x s block index in
      let items = enumerate n (map tx_data_of block.txs) in
      let here : data_column.get after.txs (n + i) ≡ some (tx_data_of tx) = ground (
        arith,
        inserted_txs data_column number_column x s block index (n + i),
        find-enumerate n i (map tx_data_of block.txs),
        get_elem-map block.txs i tx at,
      ) in
      let listed =
        insert-Kept x interpret reads (data_column.get s.txs) s.tx_index_by_txid index items
          (enumerate-Ascends n (map tx_data_of block.txs)) kept
          (λ j v e. elim (split j n) [
            | inl l ↦ ground (arith, e, find-below j n (map tx_data_of block.txs) l)
            | inr l ↦ next_tx_num_free data_column number_column x s j l
          ])
          merged in
      found_by_txid after tx (n + i) block.block_height here unique
        (inserted_height data_column number_column x s block index i top)
        (get-Finds x (data_column.get after.txs) index tx.txid (λ h serial.
          listed.0 h serial
          ∙ ap (is_listed x h)
              (sym (inserted_txs data_column number_column x s block index serial))))
