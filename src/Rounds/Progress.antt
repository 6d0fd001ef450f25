-- ===== src/Rounds/Progress.antt =====
-- A loop in which some item can always be done finds no cycle.
use chronik.Prelude.{ℕ, zero, suc, ◌≡◌, ◌≢◌, refl, sym, ap, subst, true, false, List, [], ◌∷◌, All}
use chronik.Std.Shuffle.{Shuffle}
use chronik.Rounds.{
  Visit, wait, step, fail, Passed, passed, failed, Ended, cycle, defer, note_done, proceed, pass,
  go_on, rounds,
}

module _ {X E S : Type 0} (visit : X → S → Visit E S) where
  -- What a pass leaves has every property that all items had.
  abbrev pub LeftAll : (X → Type 0) → Passed X E S → Type 0
  LeftAll P (passed next b s) = All P next
  LeftAll P (failed e s) = Unit {0}

  defer-LeftAll :
      (P : X → Type 0) (x : X) (r : Passed X E S) → P x → LeftAll P r → LeftAll P (defer x r)
  defer-LeftAll P x (passed next b s) p h = (p, h)
  defer-LeftAll P x (failed e s) p h = tt

  note_done-LeftAll : (P : X → Type 0) (r : Passed X E S) → LeftAll P r → LeftAll P (note_done r)
  note_done-LeftAll P (passed next b s) h = h
  note_done-LeftAll P (failed e s) h = tt

  proceed-LeftAll :
      (P : X → Type 0) (x : X) (xs : List X) (s : S) (v : Visit E S)
      → P x
      → ((t : S) → LeftAll P (pass visit xs t))
      → LeftAll P (proceed x (pass visit xs) s v)
  proceed-LeftAll P x xs s wait p h = defer-LeftAll P x (pass visit xs s) p (h s)
  proceed-LeftAll P x xs s (step t) p h = note_done-LeftAll P (pass visit xs t) (h t)
  proceed-LeftAll P x xs s (fail e t) p h = tt

  pub pass-LeftAll : (P : X → Type 0) (xs : List X) (s : S) → All P xs → LeftAll P (pass visit xs s)
  unfolding pass
  pass-LeftAll P [] s h = tt
  pass-LeftAll P (x ∷ xs) s h =
      proceed-LeftAll P x xs s (visit x s) h.0 (λ t. pass-LeftAll P xs t h.1)

  -- In a pass in which nothing is done, every item has to wait.
  abbrev pub Idle : List X → S → Passed X E S → Type 0
  Idle xs s (passed next true t) = Unit {0}
  Idle xs s (passed next false t) = All (λ x. visit x s ≡ wait) xs × (next ≡ xs)
  Idle xs s (failed e t) = Unit {0}

  defer-Idle :
      (x : X) (xs : List X) (s : S) (r : Passed X E S)
      → visit x s ≡ wait
      → Idle xs s r
      → Idle (x ∷ xs) s (defer x r)
  defer-Idle x xs s (passed next true t) w h = tt
  defer-Idle x xs s (passed next false t) w h = ((w, h.0), ap (λ ys. x ∷ ys) h.1)
  defer-Idle x xs s (failed e t) w h = tt

  note_done-Idle : (xs : List X) (s : S) (r : Passed X E S) → Idle xs s (note_done r)
  note_done-Idle xs s (passed next b t) = tt
  note_done-Idle xs s (failed e t) = tt

  proceed-Idle :
      (x : X) (xs : List X) (s : S) (v : Visit E S)
      → visit x s ≡ v
      → Idle xs s (pass visit xs s)
      → Idle (x ∷ xs) s (proceed x (pass visit xs) s v)
  proceed-Idle x xs s wait w h = defer-Idle x xs s (pass visit xs s) w h
  proceed-Idle x xs s (step t) w h = note_done-Idle (x ∷ xs) s (pass visit xs t)
  proceed-Idle x xs s (fail e t) w h = tt

  pub pass-Idle : (xs : List X) (s : S) → Idle xs s (pass visit xs s)
  unfolding pass
  pass-Idle [] s = (tt, refl)
  pass-Idle (x ∷ xs) s = proceed-Idle x xs s (visit x s) refl (pass-Idle xs s)

  abbrev pub Leaves : (List X → S → Type 0) → Passed X E S → Type 0
  Leaves I (passed next b s) = I next s
  Leaves I (failed e s) = Unit {0}

module _ {X E S : Type 0} (visit : List X → X → S → Visit E S) (order : List X → List X)
    (shuffles : (xs : List X) → Shuffle (order xs) xs) (I : List X → S → Type 0)
    (keeps : (xs : List X) (s : S) → I xs s → Leaves (visit xs) I (pass (visit xs) (order xs) s))
    (progress : (x : X) (xs : List X) (all : List X) (s : S)
      → I all s
      → Shuffle (x ∷ xs) all
      → All (λ y. visit all y s ≡ wait) (x ∷ xs)
      → ⊥) where
  moves_on :
      (xs : List X) (s : S) (again : List X → S → Ended X E S) (r : Passed X E S)
      → I xs s
      → Leaves (visit xs) I r
      → Idle (visit xs) (order xs) s r
      → ((ys : List X) (t : S) → I ys t → (zs : List X) (u : S) → again ys t ≢ cycle zs u)
      → (zs : List X) (u : S) → go_on again r ≢ cycle zs u
  moves_on xs s again (failed e t) i l w more zs u h = cc
  moves_on xs s again (passed [] b t) i l w more zs u h = cc
  moves_on xs s again (passed (y ∷ ys) true t) i l w more zs u h = more (y ∷ ys) t l zs u h
  moves_on xs s again (passed (y ∷ ys) false t) i l w more zs u h =
      progress y ys xs s i (subst (λ ds. Shuffle ds xs) (sym w.1) (shuffles xs))
        (subst (λ ds. All (λ z. visit xs z s ≡ wait) ds) (sym w.1) w.0)

  -- As long as an invariant of the passes rules out that all items that are left wait, no cycle is
  -- found.
  pub rounds-ne-cycle :
      (fuel : ℕ) (xs : List X) (s : S)
      → I xs s
      → (zs : List X) (u : S) → rounds visit order fuel xs s ≢ cycle zs u
  unfolding rounds
  rounds-ne-cycle zero xs s i zs u h = cc
  rounds-ne-cycle (suc fuel) xs s i zs u h =
      moves_on xs s (rounds visit order fuel) (pass (visit xs) (order xs) s) i (keeps xs s i)
        (pass-Idle (visit xs) (order xs) s) (λ ys t. rounds-ne-cycle fuel ys t) zs u h
