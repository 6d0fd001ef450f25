-- ===== src/Rounds/Outcome.antt =====
-- The loop as a whole: what has been done when it finishes, and when it finds a cycle.
use chronik.Prelude.{
  ℕ, zero, suc, ◌≡◌, refl, sym, ◌∙◌, subst, true, false, List, [], ◌∷◌, ◌++◌, any-append, arith,
  All,
}
use chronik.Std.Shuffle.{Shuffle, trans, any-Shuffle, Shuffle-append}
use chronik.Rounds.{Visit, Passed, passed, failed, Ended, finished, cycle, go_on, rounds}
use chronik.Rounds.Order.{Run, stop, RoundOf, Waits, pass-Round}

module _ {X E S : Type 0} (visit : List X → X → S → Visit E S) (order : List X → List X)
    (shuffles : (xs : List X) → Shuffle (order xs) xs) where
  -- The items are done, in some order that a `Run` allows.
  abbrev pub Completes : List X → S → S → Type 0
  Completes xs s s' = (seq : List X) × Shuffle seq xs × Run visit seq s s'

  Completes-round :
      (xs : List X) (s : S) {s' : S} (again : List X → S → Ended X E S) (r : Passed X E S)
      → RoundOf visit xs (order xs) s r
      → ((ys : List X) (t : S) → again ys t ≡ finished s' → Completes ys t s')
      → go_on again r ≡ finished s'
      → Completes xs s s'
  Completes-round xs s {s'} again (failed e t) r more h = cc
  Completes-round xs s {s'} again (passed [] b t) r more h =
      let e : t ≡ s' = cc h in
      (
        r.ds ++ [],
        trans r.parts (shuffles xs),
        subst (λ u. Run visit (r.ds ++ []) s u) e (r.extend [] t (λ p q. cc) (stop t)),
      )
  Completes-round xs s {s'} again (passed (y ∷ ys) false t) r more h = cc
  Completes-round xs s {s'} again (passed (y ∷ ys) true t) r more h =
      let (seq, sh, run) = more (y ∷ ys) t h in
      (
        r.ds ++ seq,
        trans (trans (Shuffle-append r.ds sh) r.parts) (shuffles xs),
        r.extend seq _
            (λ p q. ground (
              arith,
              any-Shuffle p sh,
              any-Shuffle p r.parts,
              any-Shuffle p (shuffles xs),
              any-append p r.ds (y ∷ ys),
            ))
            run,
      )

  -- A loop that finishes has done every item, each when no item that was left held it up.
  pub rounds-Completes :
      (fuel : ℕ) (xs : List X) (s : S) {s' : S}
      → rounds visit order fuel xs s ≡ finished s'
      → Completes xs s s'
  unfolding rounds
  rounds-Completes zero xs s h = cc
  rounds-Completes (suc fuel) xs s h =
      Completes-round xs s (rounds visit order fuel) _
        (pass-Round visit xs (order xs) s (λ p q. sym (any-Shuffle p (shuffles xs)) ∙ q))
        (λ ys t. rounds-Completes fuel ys t) h

  -- The items that are left all wait for one another.
  abbrev pub Stuck : List X → Type 0
  Stuck ys = (left : List X) × Shuffle ys left × All (Waits visit left) ys

  Stuck-round :
      (xs : List X) (s : S) {ys : List X} {s' : S} (again : List X → S → Ended X E S)
      (r : Passed X E S)
      → RoundOf visit xs (order xs) s r
      → ((zs : List X) (t : S) → again zs t ≡ cycle ys s' → Stuck ys)
      → go_on again r ≡ cycle ys s'
      → Stuck ys
  Stuck-round xs s {ys} again (failed e t) r more h = cc
  Stuck-round xs s {ys} again (passed [] b t) r more h = cc
  Stuck-round xs s {ys} again (passed (y ∷ zs) false t) r more h =
      let e : (y ∷ zs) ≡ ys = cc h in
      let all = subst (λ ds. Shuffle (ds ++ y ∷ zs) (order xs)) (r.idle refl) r.parts in
      subst Stuck e (xs, trans all (shuffles xs), r.waiting)
  Stuck-round xs s {ys} again (passed (y ∷ zs) true t) r more h = more (y ∷ zs) t h

  -- When the loop reports a cycle, all the items that it reports wait for one another.
  pub rounds-Stuck :
      (fuel : ℕ) (xs : List X) (s : S) {ys : List X} {s' : S}
      → rounds visit order fuel xs s ≡ cycle ys s'
      → Stuck ys
  unfolding rounds
  rounds-Stuck zero xs s h = cc
  rounds-Stuck (suc fuel) xs s h =
      Stuck-round xs s (rounds visit order fuel) _
        (pass-Round visit xs (order xs) s (λ p q. sym (any-Shuffle p (shuffles xs)) ∙ q))
        (λ ys t. rounds-Stuck fuel ys t) h
