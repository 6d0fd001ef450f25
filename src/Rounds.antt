-- ===== src/Rounds.antt =====
-- The loop that `MempoolWriter` and `validate_slp_batch` share: each round visits the items that are
-- left, in the order of a hash map; an item whose parents are not done waits for the next round; a
-- round in which all items wait has found a cycle.
pub mod Total
pub mod Order
pub mod Outcome
pub mod Progress
use chronik.Prelude.{ℕ, zero, suc, Bool, true, false, List, [], ◌∷◌}

-- What becomes of one item: it waits, it is done, or the whole loop fails.
pub data Visit (E S : Type 0) : Type 0 where
  wait : Visit E S
  step : S → Visit E S
  fail : E → S → Visit E S

-- After a round: the items that wait, and whether any item was done.
pub data Passed (X E S : Type 0) : Type 0 where
  passed : List X → Bool → S → Passed X E S
  failed : E → S → Passed X E S

pub data Ended (X E S : Type 0) : Type 0 where
  finished : S → Ended X E S
  cycle : List X → S → Ended X E S
  error : E → S → Ended X E S
  out_of_fuel : Ended X E S

module _ {X E S : Type 0} where
  abbrev pub defer : X → Passed X E S → Passed X E S
  defer x (passed next some_done s) = passed (x ∷ next) some_done s
  defer x (failed e s) = failed e s

  abbrev pub note_done : Passed X E S → Passed X E S
  note_done (passed next some_done s) = passed next true s
  note_done (failed e s) = failed e s

  abbrev pub proceed : X → (S → Passed X E S) → S → Visit E S → Passed X E S
  proceed x rest s wait = defer x (rest s)
  proceed x rest s (step s') = note_done (rest s')
  proceed x rest s (fail e s') = failed e s'

  unfoldable pub pass : (X → S → Visit E S) → List X → S → Passed X E S
  pass visit [] s = passed [] false s
  pass visit (x ∷ xs) s = proceed x (pass visit xs) s (visit x s)

  abbrev pub go_on : (List X → S → Ended X E S) → Passed X E S → Ended X E S
  go_on again (failed e s) = error e s
  go_on again (passed [] some_done s) = finished s
  go_on again (passed (x ∷ next) false s) = cycle (x ∷ next) s
  go_on again (passed (x ∷ next) true s) = again (x ∷ next) s

module _ {X E S : Type 0} (visit : List X → X → S → Visit E S) (order : List X → List X) where
  unfoldable pub rounds : ℕ → List X → S → Ended X E S
  rounds zero xs s = out_of_fuel
  rounds (suc fuel) xs s = go_on (rounds fuel) (pass (visit xs) (order xs) s)
