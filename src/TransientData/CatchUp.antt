-- ===== src/TransientData/CatchUp.antt =====
-- After a block the transient data are brought up to the tip, if they are not too far behind.
use chronik.Prelude.{
  ℕ, zero, suc, ◌+◌, ◌-◌, ◌<◌, ◌≤◌, ◌≡◌, refl, sym, ◌∙◌, ap, subst, false, ◌&&◌, none, some, List,
  arith, ltb, leb, nat_eq_iff, Option-cases, inl, inr, if◌then◌else◌,
}
use chronik.Chain.{Sha256d}
use chronik.Column.{Column, put}
use chronik.Index.{Indexable}
use chronik.Txs.{BlockHeight, TxData, TxColumns}
use chronik.TransientData.{
  TransientTxData, ok, read_block, next_block_height, block_tx_data, update_block, update_blocks,
  update_transient_data,
}
use chronik.TransientData.Update.{the_last}

module _ (hash : Sha256d → ℕ) (data_column : Column TxData) (number_column : Column ℕ)
    (x : Indexable TxData) (t : TxColumns data_column number_column x)
    (blocks : Column (List TransientTxData)) (tx_data : BlockHeight → List TransientTxData) where
  -- The heights have their data in the index.
  abbrev pub HaveData : BlockHeight → BlockHeight → Type 0
  HaveData first end =
      (h : BlockHeight)
      → first ≤ h
      → h < end
      → block_tx_data hash data_column number_column x t h ≡ ok (tx_data h)

  -- The heights from the first on have new data; the others are left.
  abbrev pub AreStored : BlockHeight → BlockHeight → blocks.State → blocks.State → Type 0
  AreStored first end s s' =
      (h : BlockHeight)
      → read_block blocks s' h
        ≡ (if leb first h && ltb h end then some (tx_data h) else read_block blocks s h)

  update_block-put :
      (h : BlockHeight) (s : blocks.State)
      → block_tx_data hash data_column number_column x t h ≡ ok (tx_data h)
      → update_block hash data_column number_column x blocks t h s
        ≡ ok (blocks.write (put h (tx_data h)) s)
  unfolding update_block
  update_block-put h s e = rw e refl

  update_blocks-AreStored :
      (count : ℕ) (first : BlockHeight) (s : blocks.State)
      → HaveData first (first + count)
      → (s' : blocks.State) × ((update_blocks hash data_column number_column x blocks t first count
              s
            ≡ ok s')
          × AreStored first (first + count) s s')
  unfolding update_blocks
  update_blocks-AreStored zero first s have = (s, (refl, λ h. ground arith))
  update_blocks-AreStored (suc count) first s have =
      let u = blocks.write (put first (tx_data first)) s in
      let (s', (done, stored)) =
        update_blocks-AreStored count (first + 1) u (λ h a b. have h (omega arith) (omega arith)) in
      (
        s',
        (
          rw (update_block-put first s (have first (omega arith) (omega arith))) done,
          λ h.
              stored h
              ∙ ground (
                arith,
                blocks.get_write (put first (tx_data first)) s h,
                nat_eq_iff h first,
                ap tx_data,
              ),
        ),
      )

  above_next :
      (s : blocks.State) (h : BlockHeight) → next_block_height blocks s ≤ h → blocks.get s h ≡ none
  unfolding next_block_height
  above_next s h le = elim (Option-cases (blocks.last s)) [
    | inl e ↦ blocks.last_none s e h
    | inr (item, e) ↦ (blocks.last_some s item.0 item.1 e).1 h (ground (arith, le, e))
  ]

  next-of_last :
      (s : blocks.State) (tip : BlockHeight) (u : List TransientTxData)
      → blocks.get s tip ≡ some u
      → ((h : BlockHeight) → tip < h → blocks.get s h ≡ none)
      → next_block_height blocks s ≡ tip + 1
  unfolding next_block_height
  next-of_last s tip u here above = elim (Option-cases (blocks.last s)) [
    | inl e ↦ ground (arith, here, blocks.last_none s e tip)
    | inr (item, e) ↦
        let (found, none_above) = blocks.last_some s item.0 item.1 e in
        let behind =
          the_last (blocks.get s) tip 1 item.0 u item.1 (omega arith)
            (ap (blocks.get s) (minus_one tip) ∙ here) (λ i h. above (tip + i) (omega arith)) found
            none_above in
        ground (arith, e, behind)
  ]
    where
      minus_one : (a : ℕ) → a + (1 - 1) ≡ a
      minus_one a = omega arith

  abbrev pub IsCaughtUp : BlockHeight → blocks.State → Type 0
  IsCaughtUp tip s =
      (s' : blocks.State) × ((update_transient_data hash data_column number_column x blocks t tip s
          ≡ ok s')
        × (AreStored (next_block_height blocks s) (tip + 1) s s'
            × (next_block_height blocks s' ≡ tip + 1)))

  -- When a block is connected on a tip to which fewer than twelve blocks lack their transient data,
  -- and the index has the data of these, the update succeeds, stores the data of all of them and
  -- leaves what is stored of the others, and the next block is the one after the tip.
  pub update_transient_data-IsCaughtUp :
      (tip : BlockHeight) (s : blocks.State)
      → next_block_height blocks s ≤ tip
      → tip < next_block_height blocks s + 12
      → HaveData (next_block_height blocks s) (tip + 1)
      → IsCaughtUp tip s
  unfolding update_transient_data
  update_transient_data-IsCaughtUp tip s from near have =
      let next = next_block_height blocks s in
      let e : next + (tip + 1 - next) ≡ tip + 1 = omega arith in
      let (s', (done, stored)) =
        update_blocks-AreStored (tip + 1 - next) next s
          (subst (λ end. HaveData next end) (sym e) have) in
      let all = subst (λ end. AreStored next end s s') e stored in
      let near_test : leb (next + 12) tip ≡ false = ground arith in
      (
        s',
        (
          rw near_test done,
          (
            all,
            next-of_last s' tip (tx_data tip) (all tip ∙ ground arith)
                (λ h above. all h ∙ ground (arith, above, above_next s h (omega arith))),
          ),
        ),
      )
