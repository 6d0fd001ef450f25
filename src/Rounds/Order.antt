-- ===== src/Rounds/Order.antt =====
-- What a loop that ends has done: the items in an order in which each comes after those that it
-- had to wait for; and what it means that the loop found a cycle.
use chronik.Prelude.{◌≡◌, refl, Bool, true, false, List, [], ◌∷◌, ◌++◌, any, any-append, arith, All}
use chronik.Std.Shuffle.{Shuffle, same, keep, trans, any-Shuffle, Shuffle-middle}
use chronik.Rounds.{
  Visit, wait, step, fail, Passed, passed, failed, defer, note_done, proceed, pass,
}

-- Every item of the first list is in the second.
abbrev pub Covers : {A : Type 0} → List A → List A → Type 0
Covers {A} xs ys = (p : A → Bool) → any p xs ≡ true → any p ys ≡ true

module _ {X E S : Type 0} (visit : List X → X → S → Visit E S) where
  -- The items are done one after the other, each when a list was left that covers it and all
  -- that come after it.
  pub data Run : List X → S → S → Type 0 where
    stop : (s : S) → Run [] s s
    visited :
        (x : X) (xs left : List X) {s t u : S}
        → Covers (x ∷ xs) left
        → visit left x s ≡ step t
        → Run xs t u
        → Run (x ∷ xs) s u

  -- The item waits while `left` is left.
  abbrev pub Waits : List X → X → Type 0
  Waits left x = (s : S) × (visit left x s ≡ wait)

  -- What one pass over `xs` has done, when `left` was left at its start: the items `ds`, so that a
  -- run of what is left afterwards completes to a run of both.
  pub record Round (left xs next : List X) (some_done : Bool) (s s' : S) : Type 0 where
    pub ds : List X
    pub parts : Shuffle (ds ++ next) xs
    pub extend : (rest : List X) (u : S) → Covers rest left → Run rest s' u → Run (ds ++ rest) s u
    pub idle : some_done ≡ false → ds ≡ []
    pub waiting : All (Waits left) next

  Covers-append :
      (left xs next ds rest : List X)
      → Shuffle (ds ++ next) xs
      → Covers xs left
      → Covers rest left
      → Covers (ds ++ rest) left
  Covers-append left xs next ds rest sh c d p h =
      ground (arith, any-append p ds rest, any-append p ds next, any-Shuffle p sh, c p, d p)

  abbrev pub RoundOf : List X → List X → S → Passed X E S → Type 0
  RoundOf left xs s (passed next b s') = Round left xs next b s s'
  RoundOf left xs s (failed e s') = Unit

  Round-defer :
      (left xs : List X) (x : X) (s : S) (r : Passed X E S)
      → Waits left x
      → RoundOf left xs s r
      → RoundOf left (x ∷ xs) s (defer x r)
  Round-defer left xs x s (failed e s') w h = tt
  Round-defer left xs x s (passed next b s') w h = record {
    ds = h.ds;
    parts = trans (Shuffle-middle h.ds x next) (keep x h.parts);
    extend = h.extend;
    idle = h.idle;
    waiting = (w, h.waiting);
  }

  Round-done :
      (left xs : List X) (x : X) {s t : S} (r : Passed X E S)
      → Covers (x ∷ xs) left
      → visit left x s ≡ step t
      → RoundOf left xs t r
      → RoundOf left (x ∷ xs) s (note_done r)
  Round-done left xs x (failed e s') c v h = tt
  Round-done left xs x (passed next b s') c v h = record {
    ds = x ∷ h.ds;
    parts = keep x h.parts;
    extend = λ rest u d run.
        visited x (h.ds ++ rest) left
          (Covers-append left (x ∷ xs) next (x ∷ h.ds) rest (keep x h.parts) c d) v
          (h.extend rest u d run);
    idle = λ e. ground arith;
    waiting = h.waiting;
  }

  Round-proceed :
      (left xs : List X) (x : X) (s : S) (v : Visit E S)
      → visit left x s ≡ v
      → Covers (x ∷ xs) left
      → ((t : S) → RoundOf left xs t (pass (visit left) xs t))
      → RoundOf left (x ∷ xs) s (proceed x (pass (visit left) xs) s v)
  Round-proceed left xs x s wait e c h = Round-defer left xs x s _ (s, e) (h s)
  Round-proceed left xs x s (step t) e c h = Round-done left xs x _ c e (h t)
  Round-proceed left xs x s (fail err t) e c h = tt

  pub pass-Round :
      (left xs : List X) (s : S) → Covers xs left → RoundOf left xs s (pass (visit left) xs s)
  unfolding pass
  pass-Round left [] s c = record {
    ds = [];
    parts = same [];
    extend = λ rest u d run. run;
    idle = λ e. refl;
    waiting = tt;
  }
  pass-Round left (x ∷ xs) s c =
      Round-proceed left xs x s (visit left x s) refl c
        (λ t. pass-Round left xs t (λ p h. c p (ground arith)))
