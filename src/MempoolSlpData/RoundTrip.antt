-- ===== src/MempoolSlpData/RoundTrip.antt =====
-- Whole operations of `MempoolSlpData`: what an insertion records, and that the deletion of the
-- same transaction takes it back.
use chronik.Prelude.{
  ◌+ℤ◌, ◌-ℤ◌, +ℤ_zero, +ℤ_assoc, -ℤ_zero, -ℤ_assoc, +ℤ_cancel, ◌≡◌, refl, ◌∙◌, sym, ap, subst,
  false, Option, none, some, List, any, arith, if◌then◌else◌,
}
use chronik.Std.Ord.{◌==◌, ==_iff, ==_refl, nat_ord}
use chronik.Chain.{Sha256d, UnhashedTx}
use chronik.Slp.{
  TokenId, SlpValidTxData, SlpSpentOutput, TokenStats, Checked, valid, invalid, SlpLib, SlpDb,
}
use chronik.MempoolSlpData.{
  MempoolSlpData, collect_spent_outputs, validate_slp_tx, insert_checked, insert_mempool_tx,
  delete_checked, delete_mempool_tx,
}
use chronik.MempoolSlpData.Stats.{stats_of, minted_by, burned_by}
use chronik.MempoolSlpData.Totals.{changed, IsTidy}
use chronik.MempoolSlpData.Keeps.{update_token_stats-IsTidy}
use chronik.Std.HashMap
use chronik.MempoolSlpData.Laws.{
  checked_data, kept_error, insert_checked-stats, insert_checked-slp_txs, delete_checked-stats,
  delete_checked-slp_txs, collect_inputs-agree,
}

-- The two states answer every query alike.
pub record SameSlp (s t : MempoolSlpData) : Type 0 where
  pub valid : (j : Sha256d) → s.valid_slp_txs j ≡ t.valid_slp_txs j
  pub invalid : (j : Sha256d) → s.invalid_slp_txs j ≡ t.invalid_slp_txs j
  pub stats : (j : TokenId) → stats_of s j ≡ stats_of t j

-- What an insertion has written, from the result of the validation and the outputs that are spent.
pub record Recorded (txid : Sha256d) (checked : Checked SlpValidTxData)
    (spent : List (Option SlpSpentOutput)) (s s' : MempoolSlpData) : Type 0 where
  pub minted :
      (j : TokenId)
      → (stats_of s' j).total_minted
        ≡ (stats_of s j).total_minted +ℤ minted_by j (checked_data checked)
  pub burned :
      (j : TokenId)
      → (stats_of s' j).total_burned
        ≡ (stats_of s j).total_burned +ℤ burned_by j (checked_data checked) spent
  pub valid :
      (j : Sha256d)
      → s'.valid_slp_txs j ≡ (if j == txid then checked_data checked else s.valid_slp_txs j)
  pub invalid :
      (j : Sha256d)
      → s'.invalid_slp_txs j ≡ (if j == txid then kept_error checked else s.invalid_slp_txs j)

module _ (lib : SlpLib) (txid : Sha256d) (spent : List (Option SlpSpentOutput))
    (checked : Checked SlpValidTxData) (s : MempoolSlpData) (no_valid : s.valid_slp_txs txid ≡ none)
    (no_invalid : s.invalid_slp_txs txid ≡ none) where
  inserted : MempoolSlpData
  inserted = insert_checked lib txid spent checked s

  inserted-data : inserted.valid_slp_txs txid ≡ checked_data checked
  unfolding inserted
  inserted-data =
      (insert_checked-slp_txs lib txid spent checked s no_valid no_invalid txid).0
      ∙ rw (==_refl txid)

  undo_stats : (j : TokenId) → stats_of (delete_checked txid spent inserted) j ≡ stats_of s j
  unfolding inserted
  undo_stats j =
      delete_checked-stats txid spent inserted j
      ∙ ap
          (λ d.
            changed ◌-ℤ◌ -ℤ_zero -ℤ_assoc (stats_of inserted j) (minted_by j d)
              (burned_by j d spent))
          inserted-data
      ∙ ap
          (λ t.
            changed ◌-ℤ◌ -ℤ_zero -ℤ_assoc t (minted_by j (checked_data checked))
              (burned_by j (checked_data checked) spent))
          (insert_checked-stats lib txid spent checked s j)
      ∙ ap
          (λ m. record {
            total_minted = m;
            total_burned =
                (stats_of s j).total_burned
                +ℤ burned_by j (checked_data checked) spent
                -ℤ burned_by j (checked_data checked) spent;
          })
          (+ℤ_cancel (stats_of s j).total_minted (minted_by j (checked_data checked)))
      ∙ ap (λ b. record { total_minted = (stats_of s j).total_minted; total_burned = b })
          (+ℤ_cancel (stats_of s j).total_burned (burned_by j (checked_data checked) spent))

  undo_checked : SameSlp (delete_checked txid spent inserted) s
  unfolding inserted
  undo_checked = record {
    valid = λ j. ground (
      arith,
      (delete_checked-slp_txs txid spent inserted j).0,
      (insert_checked-slp_txs lib txid spent checked s no_valid no_invalid j).0,
      ==_iff j txid,
      no_valid,
    );
    invalid = λ j. ground (
      arith,
      (delete_checked-slp_txs txid spent inserted j).1,
      (insert_checked-slp_txs lib txid spent checked s no_valid no_invalid j).1,
      ==_iff j txid,
      no_invalid,
    );
    stats = undo_stats;
  }

-- The transaction does not spend its own outputs.
abbrev pub NoSelfSpend : Sha256d → UnhashedTx → Type 0
NoSelfSpend txid tx = any (λ input. input.prev_out.txid == txid) tx.inputs ≡ false

-- Where a value may be missing.
some_of :
    {A B : Type 0} (f : A → B) (m : Option A) {b : B}
    → (elim m [ none ↦ none | some a ↦ some (f a) ]) ≡ some b
    → (a : A) × (m ≡ some a) × (f a ≡ b)
some_of f none h = cc
some_of f (some a) h = (a, refl, cc h)

module _ (lib : SlpLib) (db : SlpDb) (txid : Sha256d) (tx : UnhashedTx)
    (s s' : MempoolSlpData) where
  -- What an insertion that succeeds has written.
  insert-spent :
      insert_mempool_tx lib db txid tx s ≡ some s'
      → (spent : List (Option SlpSpentOutput)) × (collect_spent_outputs db s tx ≡ some spent)
        × (insert_checked lib txid spent (validate_slp_tx lib txid tx spent) s ≡ s')
  unfolding insert_mempool_tx
  insert-spent h = some_of _ (collect_spent_outputs db s tx) h

  stats_after :
      (spent : List (Option SlpSpentOutput)) (checked : Checked SlpValidTxData)
      → insert_checked lib txid spent checked s ≡ s'
      → (j : TokenId)
      → stats_of s' j
        ≡ changed ◌+ℤ◌ +ℤ_zero +ℤ_assoc
            (stats_of s j)
            (minted_by j (checked_data checked))
            (burned_by j (checked_data checked) spent)
  stats_after spent checked e j =
      ap (λ (x : MempoolSlpData). stats_of x j) (sym e)
      ∙ insert_checked-stats lib txid spent checked s j

  -- If the insertion of a transaction that is not known succeeds, then, for the outputs that it
  -- spends and the result of its validation: the statistics of every token gain what the transaction
  -- mints and burns of it; its data, or an error that is not ignored, is stored under its id; and
  -- all other transactions are as before.
  pub insert_slp-totals :
      insert_mempool_tx lib db txid tx s ≡ some s'
      → s.valid_slp_txs txid ≡ none
      → s.invalid_slp_txs txid ≡ none
      → (spent : List (Option SlpSpentOutput)) × (collect_spent_outputs db s tx ≡ some spent)
        × Recorded txid (validate_slp_tx lib txid tx spent) spent s s'
  insert_slp-totals h v i =
      let (spent, found, e) = insert-spent h in
      let checked : Checked SlpValidTxData = validate_slp_tx lib txid tx spent in
      (
        spent,
        found,
        record {
          minted = λ j. ap (λ (t : TokenStats). t.total_minted) (stats_after spent checked e j);
          burned = λ j. ap (λ (t : TokenStats). t.total_burned) (stats_after spent checked e j);
          valid = λ j.
              ap (λ (x : MempoolSlpData). x.valid_slp_txs j) (sym e)
              ∙ (insert_checked-slp_txs lib txid spent checked s v i j).0;
          invalid = λ j.
              ap (λ (x : MempoolSlpData). x.invalid_slp_txs j) (sym e)
              ∙ (insert_checked-slp_txs lib txid spent checked s v i j).1;
        },
      )

  collect-again :
      insert_mempool_tx lib db txid tx s ≡ some s'
      → s.valid_slp_txs txid ≡ none
      → s.invalid_slp_txs txid ≡ none
      → NoSelfSpend txid tx
      → collect_spent_outputs db s' tx ≡ collect_spent_outputs db s tx
  unfolding collect_spent_outputs
  collect-again h v i own =
      let (_, _, done) = insert_slp-totals h v i in
      collect_inputs-agree db txid s' s (λ j ne. (done.valid j ∙ rw ne, done.invalid j ∙ rw ne))
        tx.inputs own

  -- If a transaction that is not known and does not spend its own outputs is inserted with success,
  -- then its deletion succeeds, and every query is answered as before the insertion.
  pub delete-insert_slp :
      s.valid_slp_txs txid ≡ none
      → s.invalid_slp_txs txid ≡ none
      → NoSelfSpend txid tx
      → insert_mempool_tx lib db txid tx s ≡ some s'
      → (s'' : MempoolSlpData) × (delete_mempool_tx db txid tx s' ≡ some s'') × SameSlp s'' s
  unfolding delete_mempool_tx inserted
  delete-insert_slp v i own h =
      let (spent, found, e) = insert-spent h in
      let found' : collect_spent_outputs db s' tx ≡ some spent = collect-again h v i own ∙ found in
      let checked : Checked SlpValidTxData = validate_slp_tx lib txid tx spent in
      (
        delete_checked txid spent s',
        rw (found', delete_mempool_tx),
        subst (λ t. SameSlp (delete_checked txid spent t) s) e
            (undo_checked lib txid spent checked s v i),
      )

-- If the statistics are stored for exactly the tokens where they are not zero, this is so after an
-- insertion and after a deletion too.
pub checked-IsTidy :
    (lib : SlpLib) (txid : Sha256d) (spent : List (Option SlpSpentOutput))
    (checked : Checked SlpValidTxData) (s : MempoolSlpData)
    → IsTidy s
    → IsTidy (insert_checked lib txid spent checked s) × IsTidy (delete_checked txid spent s)
unfolding insert_checked delete_checked
checked-IsTidy lib txid spent checked s h = (
  inserted_tidy checked,
  update_token_stats-IsTidy ◌-ℤ◌ (s.valid_slp_txs txid) spent
      (record s { valid_slp_txs = HashMap.remove txid s.valid_slp_txs }) h,
)
  where
    inserted_tidy : (c : Checked SlpValidTxData) → IsTidy (insert_checked lib txid spent c s)
    inserted_tidy (valid slp) j = update_token_stats-IsTidy ◌+ℤ◌ (some slp) spent s h j
    inserted_tidy (invalid e) j = ground (arith, update_token_stats-IsTidy ◌+ℤ◌ none spent s h j)
