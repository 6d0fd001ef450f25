-- ===== src/TransientData/Update.antt =====
-- What `update_block` stores of the topmost block.
use chronik.Prelude.{
  ℕ, zero, suc, ◌+◌, ◌-◌, ◌<◌, ◌≤◌, ◌≡◌, refl, sym, ◌∙◌, ap, subst, ℤ, Option, none, some, List, [],
  ◌∷◌, map, All, arith, get_elem?, length, nat_eq_iff, Option-cases, inl, inr,
}
use chronik.Std.HashMap.{HashMap, unwrap_or}
use chronik.Std.Keyed.{or_else}
use chronik.Chain.{Sha256d}
use chronik.Slp.{TxNum}
use chronik.Column.{Column, put}
use chronik.Column.Writes.{find-enumerate}
use chronik.Index.{Indexable}
use chronik.Txs
use chronik.Txs.{
  BlockHeight, TxEntry, BlockTx, BlockTxs, TxData, TxsResult, TxColumns, by_tx_num,
  first_tx_num_by_block, last_tx_num, insert_block_txs, next_tx_num,
}
use chronik.Txs.Laws.{
  inserted, inserted_txs, inserted_firsts, by_tx_num-insert_block_txs, next_tx_num_free, split,
}
use chronik.TransientData.{
  TransientTxData, ok, read_block, numbers, last_of_block, collect_tx_data, block_tx_data,
  update_block, TransientReader, times_first_seen,
}
use chronik.TransientData.Laws.{kept, HaveOtherHashes, times_first_seen-kept}

get_elem-past : {A : Type 0} (xs : List A) (i : ℕ) → length xs ≤ i → get_elem? xs i ≡ none
get_elem-past [] i h = refl
get_elem-past (x ∷ xs) zero h = elim h [ ]
get_elem-past (x ∷ xs) (suc i) h = get_elem-past xs i (omega arith)

get_elem-within :
    {A : Type 0} (xs : List A) (i : ℕ) → i < length xs → (a : A) × (get_elem? xs i ≡ some a)
get_elem-within [] i h = elim h [ ]
get_elem-within (x ∷ xs) zero h = (x, refl)
get_elem-within (x ∷ xs) (suc i) h = get_elem-within xs i (omega arith)

pub the_last :
    {A : Type 0} (get : ℕ → Option A) (f l k : ℕ) (u v : A)
    → 0 < l
    → get (f + (l - 1)) ≡ some u
    → ((i : ℕ) → l ≤ i → get (f + i) ≡ none)
    → get k ≡ some v
    → ((j : ℕ) → k < j → get j ≡ none)
    → k + 1 ≡ f + l
the_last get f l k u v p within past at_k above = elim (split k (f + (l - 1))) [
  | inl below ↦ ground (arith, within, above (f + (l - 1)) below)
  | inr from ↦ elim (split k (f + l)) [
    | inl before ↦ omega arith
    | inr behind ↦
        let e : k ≡ f + (k - f) = omega arith in
        ground (arith, at_k, ap get e ∙ past (k - f) (omega arith))
  ]
]

module _ (hash : Sha256d → ℕ) (data_column : Column TxData) (number_column : Column ℕ)
    (x : Indexable TxData) where
  abbrev Reads : TxColumns data_column number_column x → TxNum → BlockHeight → List TxEntry → Type 0
  Reads t m height txs =
      (j : ℕ) (tx : TxEntry)
      → get_elem? txs j ≡ some tx
      → by_tx_num data_column number_column x t (m + j)
        ≡ TxsResult.ok (some (record { entry = tx; block_height = height }))

  collect-kept :
      (t : TxColumns data_column number_column x) (m : TxNum) (height : BlockHeight)
      (txs : List TxEntry)
      → Reads t m height txs
      → collect_tx_data hash data_column number_column x t (numbers m (length txs))
        ≡ ok (kept hash txs)
  unfolding collect_tx_data
  collect-kept t m height [] r = refl
  collect-kept t m height (tx ∷ txs) r =
      let here = ap (by_tx_num data_column number_column x t) (plus_zero m) ∙ r 0 tx refl in
      let rest =
        collect-kept t (m + 1) height txs
          (λ j u e. ap (by_tx_num data_column number_column x t) (shift m j) ∙ r (suc j) u e) in
      rw (here, rest) refl
    where
      plus_zero : (a : ℕ) → a ≡ a + 0
      plus_zero a = omega arith

      shift : (a c : ℕ) → a + 1 + c ≡ a + suc c
      shift a c = omega arith

  last_tx_num-some :
      (t : TxColumns data_column number_column x) (item : ℕ × TxData)
      → data_column.last t.txs ≡ some item
      → unwrap_or (last_tx_num data_column number_column x t) 0 ≡ item.0
  last_tx_num-some t item e = ground (arith, e)

  block_tx_data-topmost :
      (t : TxColumns data_column number_column x) (height : BlockHeight) (f l : ℕ)
      (ds : List TransientTxData)
      → number_column.get t.first_tx_by_block height ≡ some f
      → number_column.get t.first_tx_by_block (height + 1) ≡ none
      → unwrap_or (last_tx_num data_column number_column x t) 0 + 1 ≡ f + l
      → collect_tx_data hash data_column number_column x t (numbers f l) ≡ ok ds
      → block_tx_data hash data_column number_column x t height ≡ ok ds
  unfolding block_tx_data
  block_tx_data-topmost t height f l ds here next behind collected =
      let e : last_of_block hash data_column number_column x t height - f ≡ l =
        ground (arith, next, behind) in
      ground (arith, here, e, collected)

  module _ (s : TxColumns data_column number_column x) (block : BlockTxs)
      (index : HashMap ℕ (List ℕ)) where
    abbrev columns : TxColumns data_column number_column x
    columns = inserted data_column number_column x s block index

    abbrev first : TxNum
    first = next_tx_num data_column number_column x s

    stored_at :
        (i : ℕ)
        → data_column.get columns.txs (first + i)
          ≡ or_else (get_elem? (map Txs.tx_data_of block.txs) i) (data_column.get s.txs (first + i))
    stored_at i =
        inserted_txs data_column number_column x s block index (first + i)
        ∙ ap (λ o. or_else o (data_column.get s.txs (first + i)))
            (find-enumerate first i (map Txs.tx_data_of block.txs))

    length-map : (txs : List TxEntry) → length (map Txs.tx_data_of txs) ≡ length txs
    length-map [] = refl
    length-map (tx ∷ txs) = ap suc (length-map txs)

    stored_in_block :
        (i : ℕ)
        → i < length block.txs
        → (d : TxData) × (data_column.get columns.txs (first + i) ≡ some d)
    stored_in_block i h =
        let (d, e) =
          get_elem-within (map Txs.tx_data_of block.txs) i
            (subst (λ n. i < n) (sym (length-map block.txs)) h) in
        (d, stored_at i ∙ ap (λ o. or_else o (data_column.get s.txs (first + i))) e)

    stored_past : (i : ℕ) → length block.txs ≤ i → data_column.get columns.txs (first + i) ≡ none
    stored_past i h =
        let e =
          get_elem-past (map Txs.tx_data_of block.txs) i
            (subst (λ n. n ≤ i) (sym (length-map block.txs)) h) in
        stored_at i
        ∙ ap (λ o. or_else o (data_column.get s.txs (first + i))) e
        ∙ next_tx_num_free data_column number_column x s (first + i) (omega arith)

    -- The number behind the last transaction of the block.
    behind_last :
        0 < length block.txs
        → unwrap_or (last_tx_num data_column number_column x columns) 0 + 1
          ≡ first + length block.txs
    behind_last pos_length = elim (Option-cases (data_column.last columns.txs)) [
      | inl e ↦
          let (d, stored) = stored_in_block 0 pos_length in
          ground (arith, stored, data_column.last_none columns.txs e (first + 0))
      | inr (item, e) ↦
          let l = length block.txs in
          let (d, stored) = stored_in_block (l - 1) (omega arith) in
          let (here, above) = data_column.last_some columns.txs item.0 item.1 e in
          let found =
            the_last (data_column.get columns.txs) first l item.0 d item.1 pos_length stored
              stored_past here above in
          ap (λ k. k + 1) (last_tx_num-some columns item e) ∙ found
    ]

    -- The topmost block's data are what is kept of its transactions.
    pub block_tx_data-kept :
        0 < length block.txs
        → number_column.get s.first_tx_by_block (block.block_height + 1) ≡ none
        → ((k : TxNum) → first < k → number_column.get s.block_by_first_tx k ≡ none)
        → block_tx_data hash data_column number_column x columns block.block_height
          ≡ ok (kept hash block.txs)
    unfolding insert_block_txs
    block_tx_data-kept pos_length no_next top =
        let first_here : number_column.get columns.first_tx_by_block block.block_height
            ≡ some first =
          inserted_firsts data_column number_column x s block index block.block_height
          ∙ ground (arith, nat_eq_iff block.block_height block.block_height) in
        let next_here : number_column.get columns.first_tx_by_block (block.block_height + 1)
            ≡ none =
          inserted_firsts data_column number_column x s block index (block.block_height + 1)
          ∙ ground (arith, no_next, nat_eq_iff (block.block_height + 1) block.block_height) in
        block_tx_data-topmost columns block.block_height first (length block.txs)
          (kept hash block.txs) first_here next_here (behind_last pos_length)
          (collect-kept columns first block.block_height block.txs (λ j tx e.
            by_tx_num-insert_block_txs data_column number_column x s block index j tx top e))

    module _ (blocks : Column (List TransientTxData)) where
      -- The reader of the data of a height.
      abbrev pub reader_at : blocks.State → BlockHeight → TransientReader
      reader_at u height = record {
        tx_data = unwrap_or (read_block blocks u height) [];
        tx_idx = 0;
      }

      abbrev pub AreRemembered : blocks.State → (Sha256d → Option ℤ) → Type 0
      AreRemembered u mempool_time =
          (u' : blocks.State) × ((update_block hash data_column number_column x blocks columns
                block.block_height u
              ≡ ok u')
            × (times_first_seen hash mempool_time (reader_at u' block.block_height)
                  (map (λ tx. tx.txid) block.txs)
                ≡ map (λ tx. tx.time_first_seen) block.txs))

      -- After a block with at least one transaction is connected on top, its transient data are stored,
      -- and when it is connected again, in a new index with none of its transactions in the mempool,
      -- every transaction gets the time that it had, also one whose time is not known: if no two of its
      -- transaction ids have the same hash.
      pub times_first_seen-update_block :
          (u : blocks.State) (mempool_time : Sha256d → Option ℤ)
          → 0 < length block.txs
          → number_column.get s.first_tx_by_block (block.block_height + 1) ≡ none
          → ((k : TxNum) → first < k → number_column.get s.block_by_first_tx k ≡ none)
          → HaveOtherHashes hash block.txs
          → All (λ tx. mempool_time tx.txid ≡ none) block.txs
          → AreRemembered u mempool_time
      unfolding update_block
      times_first_seen-update_block u mempool_time pos_length no_next top other fresh =
          let data_kept = block_tx_data-kept pos_length no_next top in
          let u' = blocks.write (put block.block_height (kept hash block.txs)) u in
          let stored : blocks.get u' block.block_height ≡ some (kept hash block.txs) =
            blocks.get_write (put block.block_height (kept hash block.txs)) u block.block_height
            ∙ ground (arith, nat_eq_iff block.block_height block.block_height) in
          (
            u',
            (
              rw data_kept refl,
              times_first_seen-kept hash mempool_time block.txs (reader_at u' block.block_height)
                  fresh other
                  (λ j.
                    ap (λ o. get_elem? (unwrap_or o []) (0 + j)) stored
                    ∙ ap (get_elem? (kept hash block.txs)) (zero_plus j)),
            ),
          )
        where
          zero_plus : (a : ℕ) → 0 + a ≡ a
          zero_plus a = omega arith
