-- ===== src/TransientData/Laws.antt =====
-- The times of a block are read back when it is connected again.
use chronik.Prelude.{
  ℕ, suc, ◌+◌, ◌≡◌, ◌≢◌, refl, sym, ◌∙◌, ap, ℤ, pos, true, false, Option, none, some, List, [], ◌∷◌,
  map, All, arith, get_elem?, nat_eq_iff, Bool-cases, Option-cases, inl, inr,
}
use chronik.Std.Ord.{◌==◌, ==_iff, int_ord}
use chronik.Chain.{Sha256d}
use chronik.Txs.{TxEntry}
use chronik.TransientData.{
  TransientTxData, push_some, transient_of, TransientReader, read_for_next_txid, times_first_seen,
}

module _ (hash : Sha256d → ℕ) where
  -- What is kept of the transactions of a block.
  abbrev pub kept : List TxEntry → List TransientTxData
  kept [] = []
  kept (tx ∷ txs) = push_some (transient_of hash tx) (kept txs)

  abbrev pub HaveOtherHashes : List TxEntry → Type 0
  HaveOtherHashes [] = Unit
  HaveOtherHashes (tx ∷ txs) = All (λ u. hash u.txid ≢ hash tx.txid) txs × HaveOtherHashes txs

  -- An entry of a transaction with another hash is not taken for this one's.
  kept-other :
      (txs : List TxEntry) (h : ℕ) (d : TransientTxData)
      → All (λ u. hash u.txid ≢ h) txs
      → get_elem? (kept txs) 0 ≡ some d
      → d.txid_hash ≢ h
  kept-other [] h d o e = cc
  kept-other (tx ∷ txs) h d o e = elim (Bool-cases (tx.time_first_seen == pos 0)) [
    | inl zero_time ↦ kept-other txs h d o.1 (ground (arith, e, zero_time))
    | inr known ↦ λ p. o.0 (ap (λ u. u.txid_hash) (same known) ∙ p)
  ]
    where
      same :
          (tx.time_first_seen == pos 0) ≡ false
          → ◌≡◌ {A = TransientTxData}
              (record { txid_hash = hash tx.txid; time_first_seen = tx.time_first_seen })
              d
      same known = ground (arith, e, known)

  -- The reader stands before what is kept of the transactions.
  abbrev pub StandsBefore : TransientReader → List TxEntry → Type 0
  StandsBefore r txs = (j : ℕ) → get_elem? r.tx_data (r.tx_idx + j) ≡ get_elem? (kept txs) j

  step_over :
      (r : TransientReader) (tx : TxEntry) (txs : List TxEntry)
      → (tx.time_first_seen == pos 0) ≡ false
      → StandsBefore r (tx ∷ txs)
      → StandsBefore (record r { tx_idx = r.tx_idx + 1 }) txs
  step_over r tx txs known b j =
      ap (get_elem? r.tx_data) (shift r.tx_idx j) ∙ b (suc j) ∙ ground (arith, known)
    where
      shift : (a c : ℕ) → a + 1 + c ≡ a + suc c
      shift a c = omega arith

  read_known :
      (r : TransientReader) (tx : TxEntry) (txs : List TxEntry)
      → (tx.time_first_seen == pos 0) ≡ false
      → StandsBefore r (tx ∷ txs)
      → read_for_next_txid hash r tx.txid ≡ (
        some (record { txid_hash = hash tx.txid; time_first_seen = tx.time_first_seen }),
        record r { tx_idx = r.tx_idx + 1 },
      )
  unfolding read_for_next_txid
  read_known r tx txs known b =
      let e = ap (get_elem? r.tx_data) (plus_zero r.tx_idx) ∙ b 0 in
      ground (arith, e, known, nat_eq_iff (hash tx.txid) (hash tx.txid))
    where
      plus_zero : (a : ℕ) → a ≡ a + 0
      plus_zero a = omega arith

  read_unknown :
      (r : TransientReader) (tx : TxEntry) (txs : List TxEntry)
      → (tx.time_first_seen == pos 0) ≡ true
      → All (λ u. hash u.txid ≢ hash tx.txid) txs
      → StandsBefore r (tx ∷ txs)
      → read_for_next_txid hash r tx.txid ≡ (none, r)
  unfolding read_for_next_txid
  read_unknown r tx txs zero_time o b = elim (Option-cases (get_elem? r.tx_data r.tx_idx)) [
    | inl e ↦ rw e refl
    | inr (d, e) ↦
        let other = kept-other txs (hash tx.txid) d o (
          sym (ap (λ ds. get_elem? ds 0) (skipped zero_time))
          ∙ sym (ap (get_elem? r.tx_data) (plus_zero r.tx_idx) ∙ b 0)
          ∙ e) in
        ground (arith, e, other, nat_eq_iff d.txid_hash (hash tx.txid))
  ]
    where
      plus_zero : (a : ℕ) → a ≡ a + 0
      plus_zero a = omega arith

      skipped : (tx.time_first_seen == pos 0) ≡ true → kept (tx ∷ txs) ≡ kept txs
      skipped e = ground (arith, e)

  stay_before :
      (r : TransientReader) (tx : TxEntry) (txs : List TxEntry)
      → (tx.time_first_seen == pos 0) ≡ true
      → StandsBefore r (tx ∷ txs)
      → StandsBefore r txs
  stay_before r tx txs zero_time b j = b j ∙ ground (arith, zero_time)

  -- Read in order, every transaction gets its time.
  pub times_first_seen-kept :
      (mempool_time : Sha256d → Option ℤ) (txs : List TxEntry) (r : TransientReader)
      → All (λ tx. mempool_time tx.txid ≡ none) txs
      → HaveOtherHashes txs
      → StandsBefore r txs
      → times_first_seen hash mempool_time r (map (λ tx. tx.txid) txs)
        ≡ map (λ tx. tx.time_first_seen) txs
  unfolding times_first_seen
  times_first_seen-kept mempool_time [] r m o b = refl
  times_first_seen-kept mempool_time (tx ∷ txs) r m o b =
      elim (Bool-cases (tx.time_first_seen == pos 0)) [
        | inl zero_time ↦
            rw (m.0, read_unknown r tx txs zero_time o.0 b)
              (λ i.
                sym ((==_iff tx.time_first_seen (pos 0)).0 zero_time) i
                ∷ times_first_seen-kept mempool_time txs r m.1 o.1
                    (stay_before r tx txs zero_time b) i)
        | inr known ↦
            rw (m.0, read_known r tx txs known b)
              (ap (λ ts. tx.time_first_seen ∷ ts)
                (times_first_seen-kept mempool_time txs (record r { tx_idx = r.tx_idx + 1 }) m.1 o.1
                  (step_over r tx txs known b)))
      ]
