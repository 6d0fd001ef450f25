-- ===== src/Std/Ascending.antt =====
-- A `BTreeSet` as the list of its items in ascending order: two sets with the same items are the same.
use Prim.Native.Nat.{Ordering}
use Prim.Native.Nat.Ordering.{lt, eq, gt}
use chronik.Prelude.{
  ◌≡◌, refl, sym, ◌∙◌, ap, Bool, true, false, ◌||◌, ◌&&◌, List, [], ◌∷◌, arith, Bool-cases, inl,
  inr,
}
use chronik.Std.Ord.{Ord, ◌==◌, ==_iff, ==_refl}
use chronik.Std.BTreeSet
use chronik.Std.BTreeSet.{contains, contains-insert, contains-remove}

abbrev pub is_lt : Ordering → Bool
is_lt lt = true
is_lt eq = false
is_lt gt = false

module _ {A : Type 0} ⦃o : Ord A⦄ where
  abbrev pub all_above : A → List A → Bool
  all_above x [] = true
  all_above x (y ∷ ys) = is_lt (o.cmp x y) && all_above x ys

  abbrev pub is_ascending : List A → Bool
  is_ascending [] = true
  is_ascending (x ∷ xs) = all_above x xs && is_ascending xs

  all_above-chain :
      (a x : A) (xs : List A)
      → is_lt (o.cmp a x) ≡ true
      → all_above x xs ≡ true
      → all_above a xs ≡ true
  all_above-chain a x [] h h' = refl
  all_above-chain a x (y ∷ ys) h h' = ground (arith, o.chain a x y, all_above-chain a x ys h)

  all_above-insert :
      (x a : A) (xs : List A)
      → all_above x xs ≡ true
      → is_lt (o.cmp x a) ≡ true
      → all_above x (BTreeSet.insert a xs) ≡ true
  unfolding BTreeSet.insert
  all_above-insert x a [] h h' = ground (arith, h')
  all_above-insert x a (y ∷ ys) h h' = ground (arith, h, h', all_above-insert x a ys)

  all_above-remove :
      (x a : A) (xs : List A) → all_above x xs ≡ true → all_above x (BTreeSet.remove a xs) ≡ true
  unfolding BTreeSet.remove
  all_above-remove x a [] h = refl
  all_above-remove x a (y ∷ ys) h = ground (arith, h, all_above-remove x a ys)

  pub is_ascending-insert :
      (a : A) (xs : List A) → is_ascending xs ≡ true → is_ascending (BTreeSet.insert a xs) ≡ true
  unfolding BTreeSet.insert
  is_ascending-insert a [] h = refl
  is_ascending-insert a (x ∷ xs) h = ground (
    arith,
    h,
    is_ascending-insert a xs,
    all_above-insert x a xs,
    all_above-chain a x xs,
    o.mirror a x,
  )

  pub is_ascending-remove :
      (a : A) (xs : List A) → is_ascending xs ≡ true → is_ascending (BTreeSet.remove a xs) ≡ true
  unfolding BTreeSet.remove
  is_ascending-remove a [] h = refl
  is_ascending-remove a (x ∷ xs) h =
      ground (arith, h, is_ascending-remove a xs, all_above-remove x a xs)

  all_above-contains :
      (x z : A) (xs : List A)
      → all_above x xs ≡ true
      → contains z xs ≡ true
      → is_lt (o.cmp x z) ≡ true
  unfolding contains
  all_above-contains x z [] h h' = ground (arith, h')
  all_above-contains x z (y ∷ ys) h h' =
      ground (arith, h, h', all_above-contains x z ys, ==_iff z y)

  not_above : (x : A) (xs : List A) → all_above x xs ≡ true → contains x xs ≡ false
  not_above x xs h = ground (arith, all_above-contains x x xs h, o.same x)

  same_head :
      (x y : A) (xs ys : List A)
      → is_ascending (x ∷ xs) ≡ true
      → is_ascending (y ∷ ys) ≡ true
      → ((z : A) → contains z (x ∷ xs) ≡ contains z (y ∷ ys))
      → x ≡ y
  unfolding contains ◌==◌
  same_head x y xs ys h h' e = ground (
    arith,
    h,
    h',
    e x,
    e y,
    all_above-contains x y xs,
    all_above-contains y x ys,
    o.same x,
    o.same y,
    o.mirror x y,
    o.unique x y,
  )

  same_rest :
      (x y : A) (xs ys : List A)
      → x ≡ y
      → all_above x xs ≡ true
      → all_above y ys ≡ true
      → ((z : A) → contains z (x ∷ xs) ≡ contains z (y ∷ ys))
      → (z : A) → contains z xs ≡ contains z ys
  unfolding contains
  same_rest x y xs ys head h h' e z = elim (Bool-cases (z == x)) [
    | inl same ↦
        let at : z ≡ x = (==_iff z x).0 same in
        ap (λ a. contains a xs) at
        ∙ not_above x xs h
        ∙ sym (not_above y ys h')
        ∙ ap (λ a. contains a ys) (sym (at ∙ head))
    | inr other ↦
        let other' : (z == y) ≡ false = ap (λ a. z == a) (sym head) ∙ other in
        ap (λ b. b || contains z xs) (sym other) ∙ e z ∙ ap (λ b. b || contains z ys) other'
  ]

  pub same_set :
      (xs ys : List A)
      → is_ascending xs ≡ true
      → is_ascending ys ≡ true
      → ((z : A) → contains z xs ≡ contains z ys)
      → xs ≡ ys
  unfolding contains
  same_set [] [] h h' e = refl
  same_set [] (y ∷ ys) h h' e = ground (arith, e y, ==_refl y)
  same_set (x ∷ xs) [] h h' e = ground (arith, e x, ==_refl x)
  same_set (x ∷ xs) (y ∷ ys) h h' e =
      let head = same_head x y xs ys h h' e in
      ap (λ a. a ∷ xs) head
      ∙ ap (λ zs. y ∷ zs)
          (same_set xs ys (ground arith) (ground arith)
            (λ z. same_rest x y xs ys head (ground arith) (ground arith) e z))
