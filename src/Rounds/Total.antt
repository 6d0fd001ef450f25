-- ===== src/Rounds/Total.antt =====
-- The loop ends: a round that goes on leaves fewer items.
use chronik.Prelude.{ℕ, zero, suc, ◌<◌, ◌≤◌, ◌≢◌, true, false, List, [], ◌∷◌, length, arith}
use chronik.Std.Shuffle.{Shuffle, length-Shuffle}
use chronik.Rounds.{
  Visit, wait, step, fail, Passed, passed, failed, Ended, out_of_fuel, defer, note_done, proceed,
  pass, go_on, rounds,
}

-- With an item done, fewer items wait than were visited.
abbrev Shrinks : {X E S : Type 0} → ℕ → Passed X E S → Type 0
Shrinks n (passed next true s) = length next < n
Shrinks n (passed next false s) = length next ≤ n
Shrinks n (failed e s) = Unit

module _ {X E S : Type 0} where
  Shrinks-defer : (x : X) (n : ℕ) (r : Passed X E S) → Shrinks n r → Shrinks (suc n) (defer x r)
  Shrinks-defer x n (passed next true s) h = omega arith
  Shrinks-defer x n (passed next false s) h = omega arith
  Shrinks-defer x n (failed e s) h = tt

  Shrinks-done : (n : ℕ) (r : Passed X E S) → Shrinks n r → Shrinks (suc n) (note_done r)
  Shrinks-done n (passed next true s) h = omega arith
  Shrinks-done n (passed next false s) h = omega arith
  Shrinks-done n (failed e s) h = tt

  Shrinks-proceed :
      (x : X) (n : ℕ) (rest : S → Passed X E S) (s : S) (v : Visit E S)
      → ((s' : S) → Shrinks n (rest s'))
      → Shrinks (suc n) (proceed x rest s v)
  Shrinks-proceed x n rest s wait h = Shrinks-defer x n (rest s) (h s)
  Shrinks-proceed x n rest s (step s') h = Shrinks-done n (rest s') (h s')
  Shrinks-proceed x n rest s (fail e s') h = tt

  pass-Shrinks :
      (visit : X → S → Visit E S) (xs : List X) (s : S) → Shrinks (length xs) (pass visit xs s)
  unfolding pass
  pass-Shrinks visit [] s = omega arith
  pass-Shrinks visit (x ∷ xs) s =
      Shrinks-proceed x (length xs) (pass visit xs) s (visit x s) (pass-Shrinks visit xs)

  go_on-total :
      (again : List X → S → Ended X E S) (n : ℕ) (r : Passed X E S)
      → Shrinks n r
      → ((xs : List X) (s : S) → length xs < n → again xs s ≢ out_of_fuel)
      → go_on again r ≢ out_of_fuel
  go_on-total again n (failed e s) h more = λ p. cc p
  go_on-total again n (passed [] some_done s) h more = λ p. cc p
  go_on-total again n (passed (x ∷ next) false s) h more = λ p. cc p
  go_on-total again n (passed (x ∷ next) true s) h more = more (x ∷ next) s h

module _ {X E S : Type 0} (visit : List X → X → S → Visit E S) (order : List X → List X)
    (shuffles : (xs : List X) → Shuffle (order xs) xs) where
  -- One round for each item, and one more, are enough.
  pub rounds-total :
      (fuel : ℕ) (xs : List X) (s : S)
      → length xs < fuel
      → rounds visit order fuel xs s ≢ out_of_fuel
  unfolding rounds
  rounds-total zero xs s h = elim h [ ]
  rounds-total (suc fuel) xs s h =
      go_on-total (rounds visit order fuel) (length (order xs)) _
        (pass-Shrinks (visit xs) (order xs) s)
        (λ ys t lt. rounds-total fuel ys t (omega (arith, length-Shuffle (shuffles xs))))
