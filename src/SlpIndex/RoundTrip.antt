-- ===== src/SlpIndex/RoundTrip.antt =====
-- The SLP transactions of a block are read back after its batch is written.
use chronik.Prelude.{
  ◌≡◌, ◌≢◌, refl, ◌∙◌, sym, subst, some, List, [], ◌∷◌, ◌++◌, map, All, nat_eq_iff, arith,
}
use chronik.Std.HashMap.{HashMap}
use chronik.Slp.{TokenId, TxNum, SlpValidTxData}
use chronik.Column.{Column, put, written}
use chronik.Column.Writes.{puts, puts-other}
use chronik.SlpIndex.Entry.{SerSlpTxEntry, ok, SlpValues}
use chronik.SlpIndex.Tables.{SlpTables, SlpWrite, write_tx_data, apply, commit}
use chronik.SlpIndex.Reader.{
  get_token_id_by_token_num, token_by_token_num, read_entry, slp_data_by_tx_num,
}
use chronik.SlpIndex.Numbers.{Cache, genesis_tokens, insert_new_tokens}
use chronik.SlpIndex.Numbering.{
  IsNumbered, AreNew, Agrees, insert_new_tokens-IsNumbered, insert_new_tokens-Agrees,
}
use chronik.SlpIndex.Store.{insert_new_valid_txs}
use chronik.SlpIndex.Storable.{IsStorable, HasName, names_of, Keeps, ser_entry-Keeps}

pub commit-append :
    (ids : Column TokenId) (ws vs : List SlpWrite) (t : SlpTables ids)
    → commit ids (ws ++ vs) t ≡ commit ids vs (commit ids ws t)
unfolding commit
commit-append ids [] vs t = refl
commit-append ids (w ∷ ws) vs t = commit-append ids ws vs (apply ids w t)

abbrev pub Distinct : {A : Type 0} → List (TxNum × A) → Type 0
Distinct [] = Unit
Distinct (x ∷ xs) = All (λ y. y.0 ≢ x.0) xs × Distinct xs

abbrev put_entry : TxNum × SerSlpTxEntry → SlpWrite
put_entry e = write_tx_data (put e.0 e.1)

module _ (values : SlpValues) (ids : Column TokenId) where
  module _ (t t' : SlpTables ids) (v : IsNumbered ids t') where
    -- The entries of the transactions, which are read back.
    abbrev Reads : List (TxNum × SlpValidTxData) → List (TxNum × SerSlpTxEntry) → Type 0
    Reads [] [] = Unit {0}
    Reads (x ∷ txs) (e ∷ es) =
        (e.0 ≡ x.0) × ((read_entry values ids t' x.0 e.1 ≡ ok x.1) × Reads txs es)
    Reads [] (e ∷ es) = ⊥
    Reads (x ∷ txs) [] = ⊥

    Stores : List (TxNum × SlpValidTxData) → Cache → Type 0
    Stores txs cache =
        (es : List (TxNum × SerSlpTxEntry)) × (cache' : Cache) × ((insert_new_valid_txs values ids t
              txs cache
            ≡ ok (map put_entry es, cache'))
          × Reads txs es)

    insert_new_valid_txs-Stores :
        (txs : List (TxNum × SlpValidTxData)) (cache : Cache)
        → Agrees ids cache t t'
        → All (λ x. IsStorable values ids t' x.1) txs
        → All
            (λ slp. HasName values ids t' slp.slp_tx_data slp.slp_tx_data.slp_tx_type)
            (map (λ x. x.1) txs)
        → Stores txs cache
    unfolding Stores Keeps insert_new_valid_txs
    insert_new_valid_txs-Stores [] cache a h named = ([], cache, (refl, tt))
    insert_new_valid_txs-Stores ((n, slp) ∷ txs) cache a h named =
        let (e, mid, (put_e, (a', get_e))) =
          ser_entry-Keeps values ids t t' v n slp cache a h.0 named.0 in
        let (es, last, (put_es, get_es)) = insert_new_valid_txs-Stores txs mid a' h.1 named.1 in
        ((n, e) ∷ es, last, (rw (put_e, put_es), (refl, (get_e, get_es))))

    -- The tables with the entries.
    with_entries : List (TxNum × SerSlpTxEntry) → HashMap TxNum SerSlpTxEntry → SlpTables ids
    with_entries es m = record t' { slp_tx_data = puts es m }

    commit-entries :
        (es : List (TxNum × SerSlpTxEntry)) (m : HashMap TxNum SerSlpTxEntry)
        → commit ids (map put_entry es) (record t' { slp_tx_data = m }) ≡ with_entries es m
    unfolding commit with_entries
    commit-entries [] m = refl
    commit-entries (e ∷ es) m = commit-entries es (written (put e.0 e.1) m)

    Reads-other :
        (txs : List (TxNum × SlpValidTxData)) (es : List (TxNum × SerSlpTxEntry)) (n : TxNum)
        → Reads txs es
        → All (λ x. x.0 ≢ n) txs
        → All (λ e. e.0 ≢ n) es
    Reads-other [] [] n r h = tt
    Reads-other [] (e ∷ es) n r h = absurd r
    Reads-other (x ∷ txs) [] n r h = absurd r
    Reads-other (x ∷ txs) (e ∷ es) n r h =
        (subst (λ k. k ≢ n) (sym r.0) h.0, Reads-other txs es n r.1.1 h.1)

    read_entry-entries :
        (m : HashMap TxNum SerSlpTxEntry) (n : TxNum) (e : SerSlpTxEntry)
        → read_entry values ids (record t' { slp_tx_data = m }) n e ≡ read_entry values ids t' n e
    unfolding read_entry get_token_id_by_token_num token_by_token_num
    read_entry-entries m n e = refl

    read_found :
        (m : HashMap TxNum SerSlpTxEntry) (n : TxNum) (e : SerSlpTxEntry) (slp : SlpValidTxData)
        → m n ≡ some e
        → read_entry values ids t' n e ≡ ok slp
        → slp_data_by_tx_num values ids (record t' { slp_tx_data = m }) n ≡ ok (some slp)
    unfolding slp_data_by_tx_num
    read_found m n e slp found read = rw (found, read_entry-entries m n e, read) refl

    read-All :
        (txs : List (TxNum × SlpValidTxData)) (es : List (TxNum × SerSlpTxEntry))
        (m : HashMap TxNum SerSlpTxEntry)
        → Reads txs es
        → Distinct txs
        → All (λ x. slp_data_by_tx_num values ids (with_entries es m) x.0 ≡ ok (some x.1)) txs
    unfolding with_entries
    read-All [] [] m r d = tt
    read-All [] (e ∷ es) m r d = absurd r
    read-All (x ∷ txs) [] m r d = absurd r
    read-All (x ∷ txs) (e ∷ es) m r d =
        let here : puts es (written (put e.0 e.1) m) x.0 ≡ some e.1 =
          puts-other es (written (put e.0 e.1) m) x.0 (Reads-other txs es x.0 r.1.1 d.0)
          ∙ ground (arith, r.0, nat_eq_iff x.0 e.0) in
        (
          read_found (puts es (written (put e.0 e.1) m)) x.0 e.1 x.1 here r.1.0,
          read-All txs es (written (put e.0 e.1) m) r.1.1 d.1,
        )

  abbrev pub AreReadBack : SlpTables ids → List (TxNum × SlpValidTxData) → Type 0
  AreReadBack t txs =
      (ws : List SlpWrite) × (cache : Cache) × ((insert_new_valid_txs values ids t txs
            (insert_new_tokens ids t (map (λ x. x.1) txs)).1
          ≡ ok (ws, cache))
        × All
            (λ x.
              slp_data_by_tx_num values ids
                (commit ids ((insert_new_tokens ids t (map (λ x. x.1) txs)).0 ++ ws) t) x.0
              ≡ ok (some x.1))
            txs)

  -- The SLP transactions of a block, with their tokens numbered, are stored without an error, and once
  -- the batch is written each of them is read back by its number: if the token columns were inverse to
  -- each other, the tokens of the GENESIS transactions are new, the numbers of the transactions are
  -- distinct, and the transactions are storable in the tables with the new tokens.
  pub slp_data_by_tx_num-insert :
      (t : SlpTables ids) (txs : List (TxNum × SlpValidTxData))
      → IsNumbered ids t
      → AreNew ids t (genesis_tokens (map (λ x. x.1) txs))
      → Distinct txs
      → All
          (λ x.
            IsStorable values ids
              (commit ids (insert_new_tokens ids t (map (λ x. x.1) txs)).0 t)
              x.1)
          txs
      → AreReadBack t txs
  unfolding Stores with_entries
  slp_data_by_tx_num-insert t txs v new d h =
      let slps = map (λ x. x.1) txs in
      let tokens = insert_new_tokens ids t slps in
      let t' = commit ids tokens.0 t in
      let (v', named) = insert_new_tokens-IsNumbered ids t slps v new in
      let (es, cache, (put_es, get_es)) =
        insert_new_valid_txs-Stores t t' v' txs tokens.1 (insert_new_tokens-Agrees ids t slps) h
          (names_of values ids t' slps _ named) in
      (
        map put_entry es,
        cache,
        (
          put_es,
          subst (λ u. All (λ x. slp_data_by_tx_num values ids u x.0 ≡ ok (some x.1)) txs)
              (sym (
                commit-append ids tokens.0 (map put_entry es) t
                ∙ commit-entries t t' v' es t'.slp_tx_data))
              (read-All t t' v' txs es t'.slp_tx_data get_es d),
        ),
      )
