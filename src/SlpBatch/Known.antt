-- ===== src/SlpBatch/Known.antt =====
-- In a pass over a batch each transaction is left or gets its outputs known, which stay known.
use chronik.Prelude.{
  ℕ, zero, suc, ◌<◌, ◌≡◌, ◌⊎◌, inl, inr, refl, subst, Bool, true, false, Option, List, [], ◌∷◌,
  arith, length, All, Bool-cases,
}
use chronik.Std.Ord.{◌==◌, ==_iff, nat_ord}
use chronik.Std.HashMap.{HashMap, is_some}
use chronik.Slp.{TxNum, SlpValidTxData, SlpSpentOutput, Checked, valid, invalid, SlpLib}
use chronik.Rounds.{
  Visit, wait, step, fail, Passed, passed, failed, defer, note_done, proceed, pass,
}
use chronik.Rounds.Progress.{Leaves}
use chronik.SlpBatch.{
  OutpointEntry, entry_ord, BatchSlpTx, BatchState, insert_outputs, record_verdict, in_txs,
  validate_one, visit_slp,
}
use chronik.SlpBatch.Laws.{visit_slp-step, output, less_of}

-- The outputs of a transaction are known once it is visited, and stay known.
module _ (t : TxNum) (out : ℕ → Option SlpSpentOutput) where
  insert_outputs-keeps :
      (n : ℕ) (known : HashMap OutpointEntry (Option SlpSpentOutput)) (k : OutpointEntry)
      → is_some (known k) ≡ true
      → is_some (insert_outputs t out n known k) ≡ true
  insert_outputs-keeps zero known k h = h
  insert_outputs-keeps (suc n) known k h = ground (arith, insert_outputs-keeps n known k h)

  insert_outputs-adds :
      (n : ℕ) (known : HashMap OutpointEntry (Option SlpSpentOutput)) (i : ℕ)
      → i < n
      → is_some (insert_outputs t out n known (output t i)) ≡ true
  insert_outputs-adds zero known i h = elim h [ ]
  insert_outputs-adds (suc n) known i h = elim (Bool-cases (output t i == output t n)) [
    | inl e ↦ rw e refl
    | inr ne ↦ rw ne (insert_outputs-adds n known i (less_of t i n h ne))
  ]

record_verdict-keeps :
    (t : TxNum) (n : ℕ) (spent : List (Option SlpSpentOutput)) (c : Checked SlpValidTxData)
    (s : BatchState) (k : OutpointEntry)
    → is_some (s.known_slp_outputs k) ≡ true
    → is_some ((record_verdict t n spent c s).known_slp_outputs k) ≡ true
unfolding record_verdict
record_verdict-keeps t n spent (valid v) s k h = insert_outputs-keeps t _ n s.known_slp_outputs k h
record_verdict-keeps t n spent (invalid e) s k h =
    insert_outputs-keeps t _ n s.known_slp_outputs k h

record_verdict-adds :
    (t : TxNum) (n : ℕ) (spent : List (Option SlpSpentOutput)) (c : Checked SlpValidTxData)
    (s : BatchState) (i : ℕ)
    → i < n
    → is_some ((record_verdict t n spent c s).known_slp_outputs (output t i)) ≡ true
unfolding record_verdict
record_verdict-adds t n spent (valid v) s i h = insert_outputs-adds t _ n s.known_slp_outputs i h
record_verdict-adds t n spent (invalid e) s i h = insert_outputs-adds t _ n s.known_slp_outputs i h

abbrev pub Item : SlpLib → Type 0
Item lib = TxNum × BatchSlpTx lib.SlpParseData

module _ (lib : SlpLib) (outs : TxNum → ℕ) where
  abbrev pub IsSized : Item lib → Type 0
  IsSized (t, b) = outs t ≡ length b.tx.outputs

  abbrev pub Known : BatchState → TxNum → Type 0
  Known s t = (i : ℕ) → i < outs t → is_some (s.known_slp_outputs (output t i)) ≡ true

  validate_one-keeps :
      (x : Item lib) (s : BatchState) (t : TxNum) → Known s t → Known (validate_one lib x.0 x.1 s) t
  unfolding validate_one
  validate_one-keeps (n, b) s t k i h =
      record_verdict-keeps n (length b.tx.outputs) _ _ s (output t i) (k i h)

  validate_one-adds :
      (x : Item lib) (s : BatchState) (t : TxNum)
      → IsSized x
      → (x.0 == t) ≡ true
      → Known (validate_one lib x.0 x.1 s) t
  unfolding validate_one
  validate_one-adds (n, b) s t sized e =
      subst (Known (validate_one lib n b s)) ((==_iff n t).0 e)
        (λ i h. record_verdict-adds n (length b.tx.outputs) _ _ s i (subst (λ m. i < m) sized h))

  -- A transaction is left, or its outputs are known.
  abbrev pub LeftOrKnown : TxNum → List (Item lib) → BatchState → Type 0
  LeftOrKnown t left s = (in_txs left t ≡ true) ⊎ Known s t

  module _ (in_batch : TxNum → Bool) (t : TxNum) where
    abbrev pub visit : Item lib → BatchState → Visit ⊥ BatchState
    visit = visit_slp lib in_batch

    defer-here :
        (x : Item lib) (r : Passed (Item lib) ⊥ BatchState)
        → (x.0 == t) ≡ true
        → Leaves visit (LeftOrKnown t) (defer x r)
    defer-here x (passed next b s) e = inl (rw e refl)
    defer-here x (failed e s) h = tt

    defer-other :
        (x : Item lib) (r : Passed (Item lib) ⊥ BatchState)
        → Leaves visit (LeftOrKnown t) r
        → Leaves visit (LeftOrKnown t) (defer x r)
    defer-other x (passed next b s) (inl h) = inl (ground (arith, h))
    defer-other x (passed next b s) (inr k) = inr k
    defer-other x (failed e s) h = tt

    note_done-known :
        (r : Passed (Item lib) ⊥ BatchState)
        → Leaves visit (LeftOrKnown t) r
        → Leaves visit (LeftOrKnown t) (note_done r)
    note_done-known (passed next b s) h = h
    note_done-known (failed e s) h = tt

    tail_left :
        (x : Item lib) (xs : List (Item lib)) (s : BatchState)
        → (x.0 == t) ≡ false
        → LeftOrKnown t (x ∷ xs) s
        → LeftOrKnown t xs s
    tail_left x xs s ne (inl h) = inl (ground (arith, h, ne))
    tail_left x xs s ne (inr k) = inr k

    keeps_left :
        (x : Item lib) (xs : List (Item lib)) (s : BatchState)
        → LeftOrKnown t xs s
        → LeftOrKnown t xs (validate_one lib x.0 x.1 s)
    keeps_left x xs s (inl h) = inl h
    keeps_left x xs s (inr k) = inr (validate_one-keeps x s t k)

    proceed-known :
        (x : Item lib) (xs : List (Item lib)) (s : BatchState) (v : Visit ⊥ BatchState)
        → IsSized x
        → visit x s ≡ v
        → LeftOrKnown t (x ∷ xs) s
        → ((u : BatchState) → LeftOrKnown t xs u → Leaves visit (LeftOrKnown t) (pass visit xs u))
        → Leaves visit (LeftOrKnown t) (proceed x (pass visit xs) s v)
    proceed-known x xs s wait sized e l ih = elim (Bool-cases (x.0 == t)) [
      | inl same ↦ defer-here x (pass visit xs s) same
      | inr ne ↦ defer-other x (pass visit xs s) (ih s (tail_left x xs s ne l))
    ]
    proceed-known x xs s (step u) sized e l ih =
        let done = (visit_slp-step lib x.0 x.1 s in_batch u e).1 in
        note_done-known (pass visit xs u) (
          ih u (
            subst (LeftOrKnown t xs) done (elim (Bool-cases (x.0 == t)) [
              | inl same ↦ inr (validate_one-adds x s t sized same)
              | inr ne ↦ keeps_left x xs s (tail_left x xs s ne l)
            ])))
    proceed-known x xs s (fail e u) sized h l ih = tt

    pub pass-known :
        (xs : List (Item lib)) (s : BatchState)
        → All IsSized xs
        → LeftOrKnown t xs s
        → Leaves visit (LeftOrKnown t) (pass visit xs s)
    unfolding pass
    pass-known [] s sized l = l
    pass-known (x ∷ xs) s sized l =
        proceed-known x xs s (visit x s) sized.0 refl l (λ u. pass-known xs u sized.1)
