-- ===== src/Std/SortedVec.antt =====
-- `slice::binary_search`, `Vec::insert` and `Vec::remove` on a slice in strictly ascending order.
use Prim.Native.Nat.Ordering.{lt, eq, gt}
use chronik.Prelude.{
  ℕ, suc, ◌≡◌, refl, false, not, ◌&&◌, ◌||◌, List, [], ◌∷◌, arith, insert_at, remove_at, Ordering,
  subst, sym,
}
use chronik.Std.Ord.{Ord, ◌==◌, ==_iff}
use chronik.Std.BTreeSet.{contains}

-- `Result<usize, usize>`: the index of the item, or where it would keep the order.
pub data Search : Type 0 where
  found absent : ℕ → Search

abbrev pub next : Search → Search
next (found i) = found (suc i)
next (absent i) = absent (suc i)

module _ {ℓ} {A : Type ℓ} ⦃o : Ord A⦄ where
  -- On a slice in strictly ascending order the result is determined.
  unfoldable pub binary_search : A → List A → Search
  binary_search a [] = absent 0
  binary_search a (x ∷ xs) = elim (o.cmp a x) [
    | lt ↦ absent 0
    | eq ↦ found 0
    | gt ↦ next (binary_search a xs)
  ]

  -- `if let Err(idx) = entries.binary_search(entry) { entries.insert(idx, entry) }`
  abbrev pub insert_absent : A → List A → Search → List A
  insert_absent a xs (found i) = xs
  insert_absent a xs (absent i) = insert_at i a xs

  -- `if let Ok(idx) = entries.binary_search(entry) { entries.remove(idx) }`
  abbrev pub remove_found : List A → Search → List A
  remove_found xs (found i) = remove_at i xs
  remove_found xs (absent i) = xs

  abbrev pub Below : A → List A → Type 0
  Below a [] = Unit
  Below a (x ∷ xs) = o.cmp a x ≡ lt

  -- The list is in strictly ascending order.
  abbrev pub IsSorted : List A → Type 0
  IsSorted [] = Unit
  IsSorted (x ∷ xs) = Below x xs × IsSorted xs

  -- What is below the least item is not in the list.
  pub contains-Below : (a : A) (xs : List A) → Below a xs → IsSorted xs → contains a xs ≡ false
  unfolding contains ◌==◌
  contains-Below a [] b s = refl
  contains-Below a (x ∷ []) b s = ground arith
  contains-Below a (x ∷ y ∷ ys) b s =
      ground (arith, contains-Below a (y ∷ ys) (o.chain a x y b s.0) s.1)

  insert_next :
      (a x : A) (xs : List A) (r : Search)
      → insert_absent a (x ∷ xs) (next r) ≡ x ∷ insert_absent a xs r
  insert_next a x xs (found i) = refl
  insert_next a x xs (absent i) = refl

  remove_next :
      (x : A) (xs : List A) (r : Search) → remove_found (x ∷ xs) (next r) ≡ x ∷ remove_found xs r
  remove_next x xs (found i) = refl
  remove_next x xs (absent i) = refl

  -- The entry is in the list after its insertion, and all others as before.
  pub contains-insert_absent :
      (a b : A) (xs : List A)
      → contains b (insert_absent a xs (binary_search a xs)) ≡ (b == a || contains b xs)
  unfolding contains binary_search ◌==◌
  contains-insert_absent a b [] = refl
  contains-insert_absent a b (x ∷ xs) = ground (
    arith,
    contains-insert_absent a b xs,
    insert_next a x xs (binary_search a xs),
    o.unique a x,
    o.same a,
  )

  -- The entry is not in the sorted list after its removal, and all others are as before.
  pub contains-remove_found :
      (a b : A) (xs : List A)
      → IsSorted xs
      → contains b (remove_found xs (binary_search a xs)) ≡ (not (b == a) && contains b xs)
  unfolding contains binary_search
  contains-remove_found a b [] s = ground arith
  contains-remove_found a b (x ∷ xs) s =
      by_order (o.cmp a x) refl (contains-remove_found a b xs s.1)
    where
      by_order :
          (r : Ordering)
          → o.cmp a x ≡ r
          → contains b (remove_found xs (binary_search a xs)) ≡ (not (b == a) && contains b xs)
          → contains b (remove_found (x ∷ xs) (binary_search a (x ∷ xs)))
            ≡ (not (b == a) && contains b (x ∷ xs))
      by_order lt e ih = ground (arith, contains-Below a (x ∷ xs) e s, ==_iff b a, e)
      by_order eq e ih =
          ground (arith, contains-Below x xs s.0 s.1, ==_iff b a, ==_iff b x, o.unique a x, e)
      by_order gt e ih =
          ground
            (arith, remove_next x xs (binary_search a xs), ih, ==_iff b a, ==_iff b x, o.same a, e)

  Below-insert :
      (a y : A) (xs : List A)
      → o.cmp y a ≡ lt
      → Below y xs
      → Below y (insert_absent a xs (binary_search a xs))
  unfolding binary_search
  Below-insert a y [] h b = h
  Below-insert a y (x ∷ xs) h b = ground (arith, insert_next a x xs (binary_search a xs))

  -- The insertion into a list that is not empty, in the three cases of the search.
  insert_step :
      (a x : A) (xs : List A) (r : Ordering)
      → o.cmp a x ≡ r
      → insert_absent a (x ∷ xs) (binary_search a (x ∷ xs)) ≡ elim r [
        | lt ↦ a ∷ x ∷ xs
        | eq ↦ x ∷ xs
        | gt ↦ x ∷ insert_absent a xs (binary_search a xs)
      ]
  unfolding binary_search
  insert_step a x xs r e = ground (arith, insert_next a x xs (binary_search a xs), e)

  pub insert_absent-IsSorted :
      (a : A) (xs : List A) → IsSorted xs → IsSorted (insert_absent a xs (binary_search a xs))
  unfolding binary_search
  insert_absent-IsSorted a [] s = (tt, tt)
  insert_absent-IsSorted a (x ∷ xs) s = by_order (o.cmp a x) refl (insert_absent-IsSorted a xs s.1)
    where
      by_order :
          (r : Ordering)
          → o.cmp a x ≡ r
          → IsSorted (insert_absent a xs (binary_search a xs))
          → IsSorted (insert_absent a (x ∷ xs) (binary_search a (x ∷ xs)))
      by_order lt e ih = subst IsSorted (sym (insert_step a x xs lt e)) (e, s)
      by_order eq e ih = subst IsSorted (sym (insert_step a x xs eq e)) s
      by_order gt e ih =
          subst IsSorted (sym (insert_step a x xs gt e))
            (Below-insert a x xs (ground (arith, o.mirror a x, e)) s.0, ih)

  Below-chain : (x y : A) (xs : List A) → o.cmp y x ≡ lt → Below x xs → Below y xs
  Below-chain x y [] h b = tt
  Below-chain x y (z ∷ zs) h b = o.chain y x z h b

  -- The rest of a sorted list, in the three cases of the search.
  remove_step :
      (a x : A) (xs : List A) (r : Ordering)
      → o.cmp a x ≡ r
      → remove_found (x ∷ xs) (binary_search a (x ∷ xs))
        ≡ elim r [ lt ↦ x ∷ xs | eq ↦ xs | gt ↦ x ∷ remove_found xs (binary_search a xs) ]
  unfolding binary_search
  remove_step a x xs r e = ground (arith, remove_next x xs (binary_search a xs), e)

  Below-remove :
      (a y : A) (xs : List A)
      → IsSorted xs
      → Below y xs
      → Below y (remove_found xs (binary_search a xs))
  unfolding binary_search
  Below-remove a y [] s b = tt
  Below-remove a y (x ∷ xs) s b = by_order (o.cmp a x) refl
    where
      by_order :
          (r : Ordering)
          → o.cmp a x ≡ r
          → Below y (remove_found (x ∷ xs) (binary_search a (x ∷ xs)))
      by_order lt e = subst (Below y) (sym (remove_step a x xs lt e)) b
      by_order eq e = subst (Below y) (sym (remove_step a x xs eq e)) (Below-chain x y xs b s.0)
      by_order gt e = subst (Below y) (sym (remove_step a x xs gt e)) b

  pub remove_found-IsSorted :
      (a : A) (xs : List A) → IsSorted xs → IsSorted (remove_found xs (binary_search a xs))
  unfolding binary_search
  remove_found-IsSorted a [] s = tt
  remove_found-IsSorted a (x ∷ xs) s = by_order (o.cmp a x) refl (remove_found-IsSorted a xs s.1)
    where
      by_order :
          (r : Ordering)
          → o.cmp a x ≡ r
          → IsSorted (remove_found xs (binary_search a xs))
          → IsSorted (remove_found (x ∷ xs) (binary_search a (x ∷ xs)))
      by_order lt e ih = subst IsSorted (sym (remove_step a x xs lt e)) s
      by_order eq e ih = subst IsSorted (sym (remove_step a x xs eq e)) s.1
      by_order gt e ih =
          subst IsSorted (sym (remove_step a x xs gt e)) (Below-remove a x xs s.1 s.0, ih)
