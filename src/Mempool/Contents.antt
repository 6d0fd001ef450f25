-- ===== src/Mempool/Contents.antt =====
-- What the mempool holds after a batch.
use chronik.Prelude.{◌≡◌, ◌≢◌, refl, ap, Bool, Option, none, some, List, arith, ◌||◌, if◌then◌else◌}
use chronik.Std.Ord.{◌==◌, nat_ord, ==_iff}
use chronik.Std.HashMap.{is_some}
use chronik.Std.Shuffle.{Shuffle, any-Shuffle}
use chronik.Chain.{Sha256d, UnhashedTx}
use chronik.ScriptPayload.{ScriptLib}
use chronik.Slp.{SlpLib, SlpDb}
use chronik.MempoolData.{MempoolTxEntry, MempoolDeleteMode, Outcome, ok, err}
use chronik.MempoolData.Delete
use chronik.MempoolData.InsertLaws.{insert_mempool_tx-txs_spends}
use chronik.MempoolData.DeleteLaws.{delete_mempool_tx-txs_spends}
use chronik.MempoolSlpData
use chronik.MempoolSlpData.{MempoolSlpData}
use chronik.Rounds.{finished}
use chronik.Mempool.{
  MempoolWriter, MempoolError, after_insert, after_delete, after_delete_slp, done, failed, BatchTx,
  in_batch, in_ids, insert_mempool_tx, delete_mempool_tx, insert_mempool_batch_txs,
  delete_mempool_mined_txs,
}
use chronik.Mempool.Batch.{Inserts, insert_batch-parents_first}
use chronik.Mempool.Mined.{Deletes, delete_mined-parents_first}

failed_not_done : {e : MempoolError} {w w' : MempoolWriter} → failed e w ≢ done w'
failed_not_done = λ h. cc

-- The mempool has a transaction of this id.
abbrev pub holds : MempoolWriter → Sha256d → Bool
holds w txid = is_some (w.mempool.txs txid)

after_insert-done :
    (w : MempoolWriter) (slp' : Option MempoolSlpData) (data' : Outcome (Unit {0}))
    {w' : MempoolWriter}
    → after_insert w slp' data' ≡ done w'
    → (data' ≡ ok tt w'.mempool) × (slp' ≡ some w'.mempool_slp)
after_insert-done w none data' h = elim (failed_not_done h) [ ]
after_insert-done w (some slp') (ok _ data') {w'} h =
    let e : record { mempool = data'; mempool_slp = slp' } ≡ w' = cc h in
    (
      ap (λ (v : MempoolWriter). ok tt v.mempool) e,
      ap (λ (v : MempoolWriter). some v.mempool_slp) e,
    )
after_insert-done w (some slp') (err e data') h = elim (failed_not_done h) [ ]

after_delete-done :
    (w : MempoolWriter) (slp' : UnhashedTx → Option MempoolSlpData) (data' : Outcome UnhashedTx)
    {w' : MempoolWriter}
    → after_delete w slp' data' ≡ done w'
    → (tx : UnhashedTx) × (data' ≡ ok tx w'.mempool) × (slp' tx ≡ some w'.mempool_slp)
after_delete-done w slp' (ok tx data') {w'} h =
    let (e, e') = of_slp (slp' tx) h in (tx, ap (ok tx) e, e')
  where
    of_slp :
        (m : Option MempoolSlpData)
        → after_delete_slp w data' m ≡ done w'
        → (data' ≡ w'.mempool) × (m ≡ some w'.mempool_slp)
    of_slp none h = elim (failed_not_done h) [ ]
    of_slp (some m) h =
        let e : record { mempool = data'; mempool_slp = m } ≡ w' = cc h in
        (ap (λ (v : MempoolWriter). v.mempool) e, ap (λ (v : MempoolWriter). some v.mempool_slp) e)
after_delete-done w slp' (err e data') h = elim (failed_not_done h) [ ]

module _ (lib : ScriptLib) (slp : SlpLib) (db : SlpDb) where
  insert_mempool_tx-holds :
      (txid : Sha256d) (entry : MempoolTxEntry) (w w' : MempoolWriter)
      → insert_mempool_tx lib slp db txid entry w ≡ done w'
      → (t : Sha256d) → holds w' t ≡ (txid == t || holds w t)
  unfolding insert_mempool_tx
  insert_mempool_tx-holds txid entry w w' h t = ground (
    arith,
    (insert_mempool_tx-txs_spends lib txid entry.tx entry.spent_coins entry.time_first_seen
        w.mempool w'.mempool (after_insert-done w _ _ h).0 t (0, (0, 0))).0,
    ==_iff t txid,
    ==_iff txid t,
  )

  Inserts-holds :
      {seq : List BatchTx} {w w' : MempoolWriter}
      → Inserts lib slp db seq w w'
      → (t : Sha256d) → holds w' t ≡ (in_batch seq t || holds w t)
  Inserts-holds (Inserts.no_more w) t = refl
  Inserts-holds (Inserts.insert txid entry later {w} {w'} alone h rest) t =
      ground (arith, Inserts-holds rest t, insert_mempool_tx-holds txid entry w w' h t)

  -- Whatever the order in which a hash map is iterated: after a batch that is inserted with
  -- success, the mempool holds exactly the transactions of the batch and those that it held before.
  pub insert_batch-holds :
      (order : List BatchTx → List BatchTx)
      → ((xs : List BatchTx) → Shuffle (order xs) xs)
      → (txs : List BatchTx) (w w' : MempoolWriter)
      → insert_mempool_batch_txs lib slp db order txs w ≡ finished w'
      → (t : Sha256d) → holds w' t ≡ (in_batch txs t || holds w t)
  insert_batch-holds order shuffles txs w w' h t =
      let (seq, sh, run) = insert_batch-parents_first lib slp db order shuffles txs w h in
      ground (arith, Inserts-holds run t, any-Shuffle (λ item. item.0 == t) sh)

module _ (lib : ScriptLib) (db : SlpDb) where
  delete_mempool_tx-txs :
      (txid : Sha256d) (entry : MempoolTxEntry) (mode : MempoolDeleteMode) (w w' : MempoolWriter)
      → w.mempool.txs txid ≡ some entry
      → delete_mempool_tx lib db txid mode w ≡ done w'
      → (t : Sha256d) → w'.mempool.txs t ≡ (if txid == t then none else w.mempool.txs t)
  unfolding delete_mempool_tx
  delete_mempool_tx-txs txid entry mode w w' known h t =
      let (tx, e, _) =
        after_delete-done w (λ tx. MempoolSlpData.delete_mempool_tx db txid tx w.mempool_slp)
          (Delete.delete_mempool_tx lib txid mode w.mempool) h in
      ground (
        arith,
        (delete_mempool_tx-txs_spends lib mode txid entry tx w.mempool w'.mempool known e t
            (0, (0, 0))).0,
        ==_iff t txid,
        ==_iff txid t,
      )

  Deletes-txs :
      {seq : List Sha256d} {w w' : MempoolWriter}
      → Deletes lib db seq w w'
      → (t : Sha256d) → w'.mempool.txs t ≡ (if in_ids seq t then none else w.mempool.txs t)
  Deletes-txs (Deletes.no_more w) t = refl
  Deletes-txs (Deletes.delete txid entry later {w} {w'} known alone h rest) t = ground (
    arith,
    Deletes-txs rest t,
    delete_mempool_tx-txs txid entry MempoolDeleteMode.mined w w' known h t,
  )

  -- Whatever the order in which a hash set is iterated: after a deletion of mined transactions that
  -- succeeds, the mempool has none of them, and all others as before.
  pub delete_mined-txs :
      (order : List Sha256d → List Sha256d)
      → ((xs : List Sha256d) → Shuffle (order xs) xs)
      → (txids : List Sha256d) (w w' : MempoolWriter)
      → delete_mempool_mined_txs lib db order txids w ≡ finished w'
      → (t : Sha256d) → w'.mempool.txs t ≡ (if in_ids txids t then none else w.mempool.txs t)
  delete_mined-txs order shuffles txids w w' h t =
      let (seq, sh, run) = delete_mined-parents_first lib db order shuffles txids w h in
      ground (arith, Deletes-txs run t, any-Shuffle (λ id. id == t) sh)
