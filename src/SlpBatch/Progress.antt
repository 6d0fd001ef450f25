-- ===== src/SlpBatch/Progress.antt =====
-- A batch in which no transaction spends, over any number of steps, an output of its own is validated:
-- no cycle is found.
use chronik.Prelude.{
  ℕ, zero, suc, ◌<◌, ◌≡◌, ◌≢◌, inl, inr, refl, sym, ◌∙◌, subst, Bool, true, false, Option, none,
  some, List, [], ◌∷◌, any, arith, length, All, All-map, Bool-cases,
}
use chronik.Std.Ord.{◌==◌, ==_iff, ==_refl, nat_ord}
use chronik.Std.HashMap.{HashMap, is_some}
use chronik.Std.Shuffle.{Shuffle, Shuffle-sym, any-Shuffle, All-Shuffle}
use chronik.Slp.{TxNum, SlpSpentOutput, SlpLib}
use chronik.Rounds.{
  Visit, wait, Passed, passed, failed, Ended, finished, cycle, error, out_of_fuel, pass,
}
use chronik.Rounds.Progress.{Leaves, LeftAll, pass-LeftAll, rounds-ne-cycle}
use chronik.SlpBatch.{
  OutpointEntry, BatchSlpTx, BatchState, is_unknown, in_txs, inputs_of, visit_slp,
  validate_slp_batch,
}
use chronik.SlpBatch.Known.{Item, IsSized, LeftOrKnown, pass-known}
use chronik.SlpBatch.Verdicts.{start, validate_slp_batch-terminates}

-- An output of a batch's transaction is one that it has, and the transaction comes earlier in rank.
abbrev pub ComesFrom :
    (TxNum → Bool) → (TxNum → ℕ) → (TxNum → ℕ) → TxNum → Option OutpointEntry → Type 0
ComesFrom in_batch rank outs t none = Unit {0}
ComesFrom in_batch rank outs t (some k) =
    in_batch k.tx_num ≡ true → (rank k.tx_num < rank t) × (k.out_idx < outs k.tx_num)

both : {X : Type 0} (P Q : X → Type 0) (xs : List X) → All P xs → All Q xs → All (λ x. P x × Q x) xs
both P Q [] p q = tt
both P Q (x ∷ xs) p q = ((p.0, q.0), both P Q xs p.1 q.1)

-- The transaction with a number.
item_of :
    {P : Type 0} (Q : TxNum × BatchSlpTx P → Type 0) (t : TxNum) (xs : List (TxNum × BatchSlpTx P))
    → in_txs xs t ≡ true
    → All Q xs
    → (b : BatchSlpTx P) × Q (t, b)
item_of Q t [] h q = cc
item_of Q t ((n, b) ∷ xs) h q = elim (Bool-cases (n == t)) [
  | inl e ↦ (b, subst (λ m. Q (m, b)) ((==_iff n t).0 e) q.0)
  | inr ne ↦ item_of Q t xs (ground (arith, h, ne)) q.1
]

module _ (lib : SlpLib) (rank outs : TxNum → ℕ) (in_batch : TxNum → Bool) where
  abbrev pub HasParents : Item lib → Type 0
  HasParents (t, b) = All (ComesFrom in_batch rank outs t) (inputs_of b)

  abbrev Unknown : BatchState → TxNum → OutpointEntry → Type 0
  Unknown s t k =
      (is_some (s.known_slp_outputs k) ≡ false)
      × ((in_batch k.tx_num ≡ true) × ((rank k.tx_num < rank t) × (k.out_idx < outs k.tx_num)))

  find-Unknown :
      (s : BatchState) (t : TxNum) (ks : List (Option OutpointEntry))
      → any (is_unknown in_batch s) ks ≡ true
      → All (ComesFrom in_batch rank outs t) ks
      → (k : OutpointEntry) × Unknown s t k
  find-Unknown s t [] h c = cc
  find-Unknown s t (none ∷ ks) h c = find-Unknown s t ks h c.1
  find-Unknown s t (some k ∷ ks) h c = elim (Bool-cases (is_unknown in_batch s (some k))) [
    | inl e ↦ (k, (ground (arith, e), (ground (arith, e), c.0 (ground (arith, e)))))
    | inr ne ↦ find-Unknown s t ks (ground (arith, h, ne)) c.1
  ]

  waits_unknown :
      (x : Item lib) (s : BatchState)
      → ◌≡◌ {A = Visit ⊥ BatchState} (visit_slp lib in_batch x s) wait
      → any (is_unknown in_batch s) (inputs_of x.1) ≡ true
  unfolding visit_slp
  waits_unknown (t, b) s h = ground (arith, h)

  abbrev Waiting : BatchState → Item lib → Type 0
  Waiting s x = ◌≡◌ {A = Visit ⊥ BatchState} (visit_slp lib in_batch x s) wait × HasParents x

  -- Not all transactions that are left wait: one of least rank has all its parents done.
  descend :
      (n : ℕ) (t : TxNum) (xs : List (Item lib)) (s : BatchState)
      → rank t < n
      → ((m : TxNum) → in_batch m ≡ true → LeftOrKnown lib outs m xs s)
      → All (Waiting s) xs
      → in_txs xs t ≡ true
      → ⊥
  descend zero t xs s r l w h = elim r [ ]
  descend (suc n) t xs s r l w h =
      let (b, (waits, parents)) = item_of (Waiting s) t xs h w in
      let (k, (unknown, (inside, (lower, has)))) =
        find-Unknown s t (inputs_of b) (waits_unknown (t, b) s waits) parents in
      elim (l k.tx_num inside) [
        | inl left ↦ descend n k.tx_num xs s (omega arith) l w left
        | inr known ↦ ground (arith, unknown, known k.out_idx has)
      ]

  abbrev IsGood : Item lib → Type 0
  IsGood x = IsSized lib outs x × HasParents x

  abbrev Holds : List (Item lib) → BatchState → Type 0
  Holds left s = All IsGood left × ((t : TxNum) → in_batch t ≡ true → LeftOrKnown lib outs t left s)

  visit : Item lib → BatchState → Visit ⊥ BatchState
  visit = visit_slp lib in_batch

  combine :
      (r : Passed (Item lib) ⊥ BatchState)
      → LeftAll visit IsGood r
      → ((t : TxNum) → in_batch t ≡ true → Leaves visit (LeftOrKnown lib outs t) r)
      → Leaves visit Holds r
  combine (passed next b s) all left = (all, left)
  combine (failed e s) all left = tt

  shuffled_left :
      {xs ys : List (Item lib)} (sh : Shuffle xs ys) (t : TxNum) (s : BatchState)
      → LeftOrKnown lib outs t xs s
      → LeftOrKnown lib outs t ys s
  shuffled_left sh t s (inl h) = inl (sym (any-Shuffle (λ item. item.0 == t) sh) ∙ h)
  shuffled_left sh t s (inr k) = inr k

  pass-Holds :
      (xs ys : List (Item lib)) (s : BatchState)
      → Shuffle ys xs
      → Holds xs s
      → Leaves visit Holds (pass visit ys s)
  unfolding visit
  pass-Holds xs ys s sh (good, left) =
      let all = All-Shuffle IsGood (Shuffle-sym sh) good in
      combine (pass visit ys s) (pass-LeftAll visit IsGood ys s all) (λ t h.
        pass-known lib outs in_batch t ys s (All-map ys (λ x g. g.0) all)
          (shuffled_left (Shuffle-sym sh) t s (left t h)))

  with_parents :
      (s : BatchState) (xs : List (Item lib))
      → All IsGood xs
      → All (λ x. ◌≡◌ {A = Visit ⊥ BatchState} (visit x s) wait) xs
      → All (Waiting s) xs
  unfolding visit
  with_parents s [] g w = tt
  with_parents s (x ∷ xs) g w = ((w.0, g.0.1), with_parents s xs g.1 w.1)

  some_moves :
      (x : Item lib) (xs all : List (Item lib)) (s : BatchState)
      → Holds all s
      → Shuffle (x ∷ xs) all
      → All (λ y. ◌≡◌ {A = Visit ⊥ BatchState} (visit y s) wait) (x ∷ xs)
      → ⊥
  some_moves x xs all s (good, left) sh w =
      descend (suc (rank x.0)) x.0 (x ∷ xs) s (omega arith)
        (λ m h. shuffled_left (Shuffle-sym sh) m s (left m h))
        (with_parents s (x ∷ xs) (All-Shuffle IsGood (Shuffle-sym sh) good) w)
        (ground (arith, ==_refl x.0))

abbrev IsDone : {X : Type 0} → Ended X ⊥ BatchState → Type 0
IsDone {X} r = (f : BatchState) × (r ≡ finished f)

finished-IsDone :
    {X : Type 0} (r : Ended X ⊥ BatchState)
    → ((zs : List X) (u : BatchState) → r ≢ cycle zs u)
    → r ≢ out_of_fuel
    → IsDone r
finished-IsDone (finished f) c o = (f, refl)
finished-IsDone (cycle zs u) c o = absurd (c zs u refl)
finished-IsDone (error e u) c o = absurd e
finished-IsDone out_of_fuel c o = absurd (o refl)

-- A batch is validated, and no cycle is found, whatever the order in which a hash map is iterated: if
-- its transactions can be ranked so that each spends only outputs that exist of transactions of the
-- batch of lower rank, besides outputs of others.
pub validate_slp_batch-finishes :
    (lib : SlpLib) (order : List (Item lib) → List (Item lib))
    → ((xs : List (Item lib)) → Shuffle (order xs) xs)
    → (txs : List (Item lib)) (known : HashMap OutpointEntry (Option SlpSpentOutput))
      (rank outs : TxNum → ℕ)
    → All (IsSized lib outs) txs
    → All (HasParents lib rank outs (in_txs txs)) txs
    → (f : BatchState) × (validate_slp_batch lib order txs known ≡ finished f)
unfolding validate_slp_batch visit
validate_slp_batch-finishes lib order shuffles txs known rank outs sized parents =
    let in_batch = in_txs txs in
    finished-IsDone (validate_slp_batch lib order txs known)
      (rounds-ne-cycle (λ left. visit_slp lib in_batch) order shuffles
        (Holds lib rank outs in_batch)
        (λ xs s i. pass-Holds lib rank outs in_batch xs (order xs) s (shuffles xs) i)
        (λ x xs all s i sh w. some_moves lib rank outs in_batch x xs all s i sh w)
        (suc (length txs)) txs (start known)
        (
          both (IsSized lib outs) (HasParents lib rank outs in_batch) txs sized parents,
          λ t h. inl h,
        ))
      (validate_slp_batch-terminates lib order shuffles txs known)
