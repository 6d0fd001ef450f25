-- ===== src/Column/Writes.antt =====
-- What a column holds after a batch.
use chronik.Prelude.{
  ℕ, zero, suc, ◌+◌, ◌<◌, ◌≡◌, refl, ◌∙◌, ap, ◌≢◌, Option, none, nat_eq_iff, List, [], ◌∷◌, map,
  All, arith, enumerate, get_elem?, if◌then◌else◌,
}
use chronik.Std.HashMap.{is_some}
use chronik.Std.Keyed.{or_else}
use chronik.Column.{Column, put, delete, written, Ascends, find, write_all}

pub find_above :
    {V : Type 0} (j : ℕ) (items : List (ℕ × V)) → All (λ f. j < f.0) items → find j items ≡ none
find_above j [] h = refl
find_above j ((k, v) ∷ items) h = ground (arith, find_above j items h.1, h.0)

-- What a column holds after some entries are put.
abbrev pub puts : {V : Type 0} → List (ℕ × V) → (ℕ → Option V) → ℕ → Option V
puts [] m = m
puts (e ∷ es) m = puts es (written (put e.0 e.1) m)

pub puts-other :
    {V : Type 0} (es : List (ℕ × V)) (m : ℕ → Option V) (n : ℕ)
    → All (λ e. e.0 ≢ n) es
    → puts es m n ≡ m n
puts-other [] m n h = refl
puts-other (e ∷ es) m n h =
    puts-other es (written (put e.0 e.1) m) n h.1 ∙ ground (arith, h.0, nat_eq_iff n e.0)

module _ {V : Type 0} where
  enumerate-above : (m n : ℕ) (vs : List V) → m < n → All (λ f. m < f.0) (enumerate n vs)
  enumerate-above m n [] h = tt
  enumerate-above m n (v ∷ vs) h = (h, enumerate-above m (n + 1) vs (omega arith))

  pub enumerate-Ascends : (n : ℕ) (vs : List V) → Ascends (enumerate n vs)
  enumerate-Ascends n [] = tt
  enumerate-Ascends n (v ∷ vs) =
      (enumerate-above n (n + 1) vs (omega arith), enumerate-Ascends (n + 1) vs)

  pub find-below : (j n : ℕ) (vs : List V) → j < n → find j (enumerate n vs) ≡ none
  find-below j n vs h = find_above j (enumerate n vs) (enumerate-above j n vs h)

  pub find-enumerate : (n i : ℕ) (vs : List V) → find (n + i) (enumerate n vs) ≡ get_elem? vs i
  find-enumerate n i [] = refl
  find-enumerate n zero (v ∷ vs) = ground arith
  find-enumerate n (suc i) (v ∷ vs) =
      ground
        (arith, find-enumerate (n + 1) i vs, ap (λ k. find k (enumerate (n + 1) vs)) (shift n i))
    where
      shift : (a b : ℕ) → a + suc b ≡ a + 1 + b
      shift a b = omega arith

  module _ (c : Column V) where
    pub get-puts :
        (items : List (ℕ × V)) (s : c.State) (j : ℕ)
        → Ascends items
        → c.get (write_all c (map (λ item. put item.0 item.1) items) s) j
          ≡ or_else (find j items) (c.get s j)
    unfolding write_all
    get-puts [] s j a = refl
    get-puts ((k, v) ∷ items) s j a =
        get-puts items (c.write (put k v) s) j a.1
        ∙ ground (arith, c.get_write (put k v) s j, find_above k items a.0)

    pub get-deletes :
        (items : List (ℕ × V)) (s : c.State) (j : ℕ)
        → c.get (write_all c (map (λ item. delete item.0) items) s) j
          ≡ (if is_some (find j items) then none else c.get s j)
    unfolding write_all
    get-deletes [] s j = refl
    get-deletes ((k, v) ∷ items) s j =
        get-deletes items (c.write (delete k) s) j ∙ ground (arith, c.get_write (delete k) s j)
