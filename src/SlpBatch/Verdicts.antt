-- ===== src/SlpBatch/Verdicts.antt =====
-- A batch that is validated has, for each transaction, the verdict that the outputs of its parents
-- give, in whatever order the rounds have taken them.
use chronik.Prelude.{
  ℕ, suc, ◌≡◌, ◌≢◌, refl, sym, ◌∙◌, ap, subst, Bool, true, false, Option, none, some, List, [], ◌∷◌,
  any, map, arith, length, All,
}
use chronik.Std.Ord.{◌==◌, ==_iff, ==_refl, nat_ord}
use chronik.Std.HashMap
use chronik.Std.HashMap.{HashMap, is_some, unwrap_or}
use chronik.Std.Shuffle.{Shuffle, same, keep, swap, trans, any-Shuffle, All-Shuffle}
use chronik.Slp.{TxNum, SlpValidTxData, SlpSpentOutput, Checked, valid, invalid, SlpLib}
use chronik.Rounds.{finished, out_of_fuel}
use chronik.Rounds.Total.{rounds-total}
use chronik.Rounds.Order.{Run, stop, visited}
use chronik.Rounds.Outcome.{rounds-Completes}
use chronik.SlpBatch.{
  OutpointEntry, BatchSlpTx, BatchState, is_unknown, spent_at, in_txs, inputs_of, visit_slp,
  validate_slp_batch,
}
use chronik.SlpBatch.Laws.{
  SameAt, Recorded, KnownAs, validate_one-KnownAs, validate_one-SameAt, validate_one-Recorded,
  visit_slp-step,
}

module _ {P : Type 0} where
  -- The keys of a hash map.
  abbrev pub DistinctNums : List (TxNum × BatchSlpTx P) → Type 0
  DistinctNums [] = Unit
  DistinctNums (item ∷ txs) = (in_txs txs item.0 ≡ false) × DistinctNums txs

  DistinctNums-Shuffle :
      {xs ys : List (TxNum × BatchSlpTx P)} → Shuffle xs ys → DistinctNums ys → DistinctNums xs
  DistinctNums-Shuffle (same xs) d = d
  DistinctNums-Shuffle (keep x sh) d =
      (any-Shuffle (λ item. item.0 == x.0) sh ∙ d.0, DistinctNums-Shuffle sh d.1)
  DistinctNums-Shuffle (swap x y xs) d =
      (ground (arith, ==_iff x.0 y.0, ==_iff y.0 x.0, d.0, d.1.0), (ground (arith, d.0), d.1.1))
  DistinctNums-Shuffle (trans sh sh') d = DistinctNums-Shuffle sh (DistinctNums-Shuffle sh' d)

  -- Nothing is known yet of the transactions that are left.
  pub record Untouched (txs : List (TxNum × BatchSlpTx P)) (s : BatchState) : Type 0 where
    pub known : (k : OutpointEntry) → in_txs txs k.tx_num ≡ true → s.known_slp_outputs k ≡ none
    pub no_verdict :
        (t : TxNum)
        → in_txs txs t ≡ true
        → (s.valid_results t ≡ none) × (s.invalid_results t ≡ none)

module _ (lib : SlpLib) where
  -- The verdict on the transaction, from the outputs in `s`, is the one that is recorded in `s`, and
  -- its outputs have in `s` the tokens that this verdict gives them.
  abbrev pub DecidedBy :
      BatchState → TxNum × BatchSlpTx lib.SlpParseData → List (Option SlpSpentOutput) → Type 0
  DecidedBy s (t, b) spent =
      let c = lib.validate_slp_tx b.parsed_tx_data spent in
      Recorded t spent c s × KnownAs t (length b.tx.outputs) c s

  abbrev pub Decided : BatchState → TxNum × BatchSlpTx lib.SlpParseData → Type 0
  Decided s (t, b) = DecidedBy s (t, b) (map (spent_at s) (inputs_of b))

module _ (lib : SlpLib) (in_batch : TxNum → Bool) where
  abbrev RunOf : List (TxNum × BatchSlpTx lib.SlpParseData) → BatchState → BatchState → Type 0
  RunOf = Run {E = ⊥} (λ left. visit_slp lib in_batch)

  Run-SameAt :
      {seq : List (TxNum × BatchSlpTx lib.SlpParseData)} {s f : BatchState}
      → RunOf seq s f
      → (j : TxNum) → in_txs seq j ≡ false
      → SameAt j s f
  Run-SameAt (stop s) j h = record { known = λ k e. refl; valid_at = refl; invalid_at = refl }
  Run-SameAt (visited (t, b) seq left {s} {t = s'} c v run) j h =
      let (_, e) = visit_slp-step lib t b s in_batch s' v in
      let ne : (j == t) ≡ false = ground (arith, ==_iff j t, ==_iff t j) in
      let first = subst (SameAt j s) e (validate_one-SameAt lib t b s j ne) in
      let rest = Run-SameAt run j (ground arith) in
      record {
        known = λ k q. rest.known k q ∙ first.known k q;
        valid_at = rest.valid_at ∙ first.valid_at;
        invalid_at = rest.invalid_at ∙ first.invalid_at;
      }

  -- What a transaction spends is known, or no transaction of the batch will make it.
  spent-agree :
      (seq : List (TxNum × BatchSlpTx lib.SlpParseData)) (s f : BatchState)
      → ((n : TxNum) → in_txs seq n ≡ true → in_batch n ≡ true)
      → Untouched seq s
      → ((j : TxNum) → in_txs seq j ≡ false → SameAt j s f)
      → (inputs : List (Option OutpointEntry)) → any (is_unknown in_batch s) inputs ≡ false
      → map (spent_at f) inputs ≡ map (spent_at s) inputs
  spent-agree seq s f c u kept [] h = refl
  spent-agree seq s f c u kept (none ∷ inputs) h =
      ap (λ xs. none ∷ xs) (spent-agree seq s f c u kept inputs h)
  spent-agree seq s f c u kept (some k ∷ inputs) h =
      let out : in_txs seq k.tx_num ≡ false = ground (arith, c k.tx_num, u.known k) in
      let rest : any (is_unknown in_batch s) inputs ≡ false = ground arith in
      rw ((kept k.tx_num out).known k (==_refl k.tx_num), spent-agree seq s f c u kept inputs rest)

  Recorded-SameAt :
      (t : TxNum) (spent : List (Option SlpSpentOutput)) (c : Checked SlpValidTxData)
      (s f : BatchState)
      → SameAt t s f
      → Recorded t spent c s
      → Recorded t spent c f
  Recorded-SameAt t spent (valid v) s f k (h, h') = (k.valid_at ∙ h, k.invalid_at ∙ h')
  Recorded-SameAt t spent (invalid e) s f k (h, h') = (k.valid_at ∙ h, k.invalid_at ∙ h')

  KnownAs-SameAt :
      (t : TxNum) (n : ℕ) (c : Checked SlpValidTxData) (s f : BatchState)
      → SameAt t s f
      → KnownAs t n c s
      → KnownAs t n c f
  KnownAs-SameAt t n c s f k known i h =
      k.known (record { tx_num = t; out_idx = i }) (==_refl t) ∙ known i h

  Untouched-step :
      (t : TxNum) (b : BatchSlpTx lib.SlpParseData)
      (seq : List (TxNum × BatchSlpTx lib.SlpParseData)) (s s' : BatchState)
      → ((j : TxNum) → (j == t) ≡ false → SameAt j s s')
      → in_txs seq t ≡ false
      → Untouched ((t, b) ∷ seq) s
      → Untouched seq s'
  Untouched-step t b seq s s' first d u = record {
    known = λ k h.
        (first k.tx_num (other k.tx_num h)).known k (==_refl k.tx_num) ∙ u.known k (ground arith);
    no_verdict = λ j h.
        let w = u.no_verdict j (ground arith) in
        let e = first j (other j h) in (e.valid_at ∙ w.0, e.invalid_at ∙ w.1);
  }
    where
      other : (j : TxNum) → in_txs seq j ≡ true → (j == t) ≡ false
      other j h = ground (arith, d, ==_iff j t, ap (in_txs seq))

  Run-Decided :
      {seq : List (TxNum × BatchSlpTx lib.SlpParseData)} {s f : BatchState}
      → RunOf seq s f
      → DistinctNums seq
      → ((n : TxNum) → in_txs seq n ≡ true → in_batch n ≡ true)
      → Untouched seq s
      → All (Decided lib f) seq
  Run-Decided (stop s) d c u = tt
  Run-Decided {f = f} (visited (t, b) seq left {s} {t = s'} cov v run) d c u =
      let (unknown, e) = visit_slp-step lib t b s in_batch s' v in
      let agree =
        spent-agree ((t, b) ∷ seq) s f c u (Run-SameAt (visited (t, b) seq left cov v run))
          (inputs_of b) unknown in
      let own = u.no_verdict t (ground (arith, ==_refl t)) in
      let kept = Run-SameAt run t d.0 in
      let here =
        Recorded-SameAt t _ _ s' f kept
          (subst (Recorded t _ _) e (validate_one-Recorded lib t b s own.0 own.1)) in
      let outputs =
        KnownAs-SameAt t (length b.tx.outputs) _ s' f kept
          (subst (KnownAs t (length b.tx.outputs) _) e (validate_one-KnownAs lib t b s)) in
      (
        subst (DecidedBy lib f (t, b)) (sym agree) (here, outputs),
        Run-Decided run d.1 (λ n h. c n (ground arith))
            (Untouched-step t b seq s s'
              (λ j ne. subst (SameAt j s) e (validate_one-SameAt lib t b s j ne)) d.0 u),
      )

abbrev pub start : HashMap OutpointEntry (Option SlpSpentOutput) → BatchState
start known = record {
  known_slp_outputs = known;
  valid_results = HashMap.empty;
  invalid_results = HashMap.empty;
}

module _ (lib : SlpLib)
    (order : List (TxNum × BatchSlpTx lib.SlpParseData)
      → List (TxNum × BatchSlpTx lib.SlpParseData))
    (shuffles : (xs : List (TxNum × BatchSlpTx lib.SlpParseData)) → Shuffle (order xs) xs)
    (txs : List (TxNum × BatchSlpTx lib.SlpParseData))
    (known : HashMap OutpointEntry (Option SlpSpentOutput)) where
  -- Whatever the order in which a hash map is iterated, the validation of a batch ends.
  pub validate_slp_batch-terminates : validate_slp_batch lib order txs known ≢ out_of_fuel
  unfolding validate_slp_batch
  validate_slp_batch-terminates =
      rounds-total (λ left. visit_slp lib (in_txs txs)) order shuffles (suc (length txs)) txs
        (start known) (omega arith)

  -- Whatever the order in which a hash map is iterated: if the transactions have different numbers,
  -- no output of theirs is known at first, and the batch is validated, then the result holds for
  -- each transaction the verdict, and only this one, that the validation gives for the outputs known
  -- at the end of the transactions that it spends; every output of a transaction of the batch is known
  -- at the end, with the token that this verdict gives it, and with none if the transaction is invalid;
  -- and for no other transaction a verdict or an output is added.
  pub validate_slp_batch-verdicts :
      (f : BatchState)
      → DistinctNums txs
      → ((k : OutpointEntry) → in_txs txs k.tx_num ≡ true → known k ≡ none)
      → validate_slp_batch lib order txs known ≡ finished f
      → All (Decided lib f) txs
        × ((t : TxNum)
            → in_txs txs t ≡ false
            → (f.valid_results t ≡ none)
              × ((f.invalid_results t ≡ none)
                  × ((i : ℕ)
                      → f.known_slp_outputs (record { tx_num = t; out_idx = i })
                        ≡ known (record { tx_num = t; out_idx = i }))))
  unfolding validate_slp_batch
  validate_slp_batch-verdicts f d fresh h =
      let (seq, sh, run) =
        rounds-Completes (λ left. visit_slp lib (in_txs txs)) order shuffles (suc (length txs)) txs
          (start known) h in
      let same_nums = λ (n : TxNum).
        any-Shuffle (λ (item : TxNum × BatchSlpTx lib.SlpParseData). item.0 == n) sh in
      (
        All-Shuffle (Decided lib f) sh (
            Run-Decided lib (in_txs txs) run (DistinctNums-Shuffle sh d)
              (λ n q. sym (same_nums n) ∙ q)
              (record {
                known = λ k q. fresh k (sym (same_nums k.tx_num) ∙ q);
                no_verdict = λ t q. (refl, refl);
              })),
        λ t q.
            let e = Run-SameAt lib (in_txs txs) run t (same_nums t ∙ q) in
            (
              e.valid_at,
              (e.invalid_at, λ i. e.known (record { tx_num = t; out_idx = i }) (==_refl t)),
            ),
      )
