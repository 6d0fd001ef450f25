-- ===== src/Std/Keyed.antt =====
-- A vector of entries in strictly ascending order of a key, as `binary_search_by` keeps it.
use Prim.Native.Nat.Ordering.{lt, eq, gt}
use chronik.Prelude.{
  ℕ, zero, suc, ◌≡◌, refl, ap, sym, subst, Bool, true, false, Option, none, some, List, [], ◌∷◌,
  map, arith, insert_at, remove_at, Ordering, if◌then◌else◌,
}
use chronik.Std.Ord.{Ord, ◌==◌, ==_iff}
use chronik.Std.HashMap.{is_some}
use chronik.Std.SortedVec.{
  Search, found, absent, next, binary_search, insert_absent, remove_found, Below, IsSorted,
  insert_absent-IsSorted, remove_found-IsSorted,
}

-- `Option::or`
abbrev pub or_else : {D : Type 0} → Option D → Option D → Option D
or_else (some d) other = some d
or_else none other = other

-- `if let Err(insert_idx) = search { entries.insert(insert_idx, d) }`
abbrev pub insert_missing : {D : Type 0} → D → List D → Search → List D
insert_missing d ds (absent i) = insert_at i d ds
insert_missing d ds (found i) = ds

-- `if let Ok(delete_idx) = search { entries.remove(delete_idx); }`
abbrev pub remove_present : {D : Type 0} → List D → Search → List D
remove_present ds (found i) = remove_at i ds
remove_present ds (absent i) = ds

abbrev pub is_found : Search → Bool
is_found (found i) = true
is_found (absent i) = false

is_found-next : (r : Search) → is_found (next r) ≡ is_found r
is_found-next (found i) = refl
is_found-next (absent i) = refl

module _ {A D : Type 0} ⦃o : Ord A⦄ (key : D → A) where
  -- The entry with the key.
  unfoldable pub lookup : A → List D → Option D
  lookup b [] = none
  lookup b (d ∷ ds) = if b == key d then some d else lookup b ds

  map-insert_at :
      (i : ℕ) (d : D) (ds : List D) → map key (insert_at i d ds) ≡ insert_at i (key d) (map key ds)
  map-insert_at zero d ds = refl
  map-insert_at (suc i) d [] = refl
  map-insert_at (suc i) d (x ∷ xs) = ap (λ r. key x ∷ r) (map-insert_at i d xs)

  map-remove_at : (i : ℕ) (ds : List D) → map key (remove_at i ds) ≡ remove_at i (map key ds)
  map-remove_at i [] = refl
  map-remove_at zero (x ∷ xs) = refl
  map-remove_at (suc i) (x ∷ xs) = ap (λ r. key x ∷ r) (map-remove_at i xs)

  map-insert_missing :
      (d : D) (ds : List D) (r : Search)
      → map key (insert_missing d ds r) ≡ insert_absent (key d) (map key ds) r
  map-insert_missing d ds (absent i) = map-insert_at i d ds
  map-insert_missing d ds (found i) = refl

  map-remove_present :
      (ds : List D) (r : Search) → map key (remove_present ds r) ≡ remove_found (map key ds) r
  map-remove_present ds (found i) = map-remove_at i ds
  map-remove_present ds (absent i) = refl

  pub insert_missing-IsSorted :
      (d : D) (ds : List D)
      → IsSorted (map key ds)
      → IsSorted (map key (insert_missing d ds (binary_search (key d) (map key ds))))
  insert_missing-IsSorted d ds s =
      subst IsSorted (sym (map-insert_missing d ds (binary_search (key d) (map key ds))))
        (insert_absent-IsSorted (key d) (map key ds) s)

  pub remove_present-IsSorted :
      (a : A) (ds : List D)
      → IsSorted (map key ds)
      → IsSorted (map key (remove_present ds (binary_search a (map key ds))))
  remove_present-IsSorted a ds s =
      subst IsSorted (sym (map-remove_present ds (binary_search a (map key ds))))
        (remove_found-IsSorted a (map key ds) s)

  insert_next :
      (d x : D) (ds : List D) (r : Search)
      → insert_missing d (x ∷ ds) (next r) ≡ x ∷ insert_missing d ds r
  insert_next d x ds (found i) = refl
  insert_next d x ds (absent i) = refl

  remove_next :
      (x : D) (ds : List D) (r : Search)
      → remove_present (x ∷ ds) (next r) ≡ x ∷ remove_present ds r
  remove_next x ds (found i) = refl
  remove_next x ds (absent i) = refl

  -- A key below the first one has no entry.
  lookup-Below :
      (a : A) (ds : List D) → Below a (map key ds) → IsSorted (map key ds) → lookup a ds ≡ none
  unfolding lookup ◌==◌
  lookup-Below a [] b s = refl
  lookup-Below a (x ∷ []) b s = ground arith
  lookup-Below a (x ∷ y ∷ ys) b s =
      ground (arith, lookup-Below a (y ∷ ys) (o.chain a (key x) (key y) b s.0) s.1)

  -- An insertion adds the entry where the key has none.
  pub lookup-insert_missing :
      (b : A) (d : D) (ds : List D)
      → IsSorted (map key ds)
      → lookup b (insert_missing d ds (binary_search (key d) (map key ds)))
        ≡ or_else (lookup b ds) (if b == key d then some d else none)
  unfolding lookup binary_search
  lookup-insert_missing b d [] s = ground arith
  lookup-insert_missing b d (x ∷ ds) s =
      by_order (o.cmp (key d) (key x)) refl (lookup-insert_missing b d ds s.1)
    where
      by_order :
          (r : Ordering)
          → o.cmp (key d) (key x) ≡ r
          → lookup b (insert_missing d ds (binary_search (key d) (map key ds)))
            ≡ or_else (lookup b ds) (if b == key d then some d else none)
          → lookup b (insert_missing d (x ∷ ds) (binary_search (key d) (map key (x ∷ ds))))
            ≡ or_else (lookup b (x ∷ ds)) (if b == key d then some d else none)
      by_order lt e ih = ground (arith, lookup-Below (key d) (x ∷ ds) e s, ==_iff b (key d), e)
      by_order eq e ih =
          ground (arith, ==_iff b (key d), ==_iff b (key x), o.unique (key d) (key x), e)
      by_order gt e ih =
          ground (arith, insert_next d x ds (binary_search (key d) (map key ds)), ih, e)

  -- A removal takes the entry of the key away, and no other.
  pub lookup-remove_present :
      (a b : A) (ds : List D)
      → IsSorted (map key ds)
      → lookup b (remove_present ds (binary_search a (map key ds)))
        ≡ (if b == a then none else lookup b ds)
  unfolding lookup binary_search
  lookup-remove_present a b [] s = ground arith
  lookup-remove_present a b (x ∷ ds) s =
      by_order (o.cmp a (key x)) refl (lookup-remove_present a b ds s.1)
    where
      by_order :
          (r : Ordering)
          → o.cmp a (key x) ≡ r
          → lookup b (remove_present ds (binary_search a (map key ds)))
            ≡ (if b == a then none else lookup b ds)
          → lookup b (remove_present (x ∷ ds) (binary_search a (map key (x ∷ ds))))
            ≡ (if b == a then none else lookup b (x ∷ ds))
      by_order lt e ih = ground (arith, lookup-Below a (x ∷ ds) e s, ==_iff b a, e)
      by_order eq e ih = ground (
        arith,
        lookup-Below (key x) ds s.0 s.1,
        ==_iff b a,
        ==_iff b (key x),
        o.unique a (key x),
        e,
      )
      by_order gt e ih = ground (
        arith,
        remove_next x ds (binary_search a (map key ds)),
        ih,
        ==_iff b a,
        ==_iff b (key x),
        o.same a,
        e,
      )

  -- The search finds a key that has an entry, and no other.
  pub found_iff :
      (a : A) (ds : List D)
      → IsSorted (map key ds)
      → is_found (binary_search a (map key ds)) ≡ is_some (lookup a ds)
  unfolding lookup binary_search ◌==◌
  found_iff a [] s = refl
  found_iff a (x ∷ ds) s = by_order (o.cmp a (key x)) refl (found_iff a ds s.1)
    where
      by_order :
          (r : Ordering)
          → o.cmp a (key x) ≡ r
          → is_found (binary_search a (map key ds)) ≡ is_some (lookup a ds)
          → is_found (binary_search a (map key (x ∷ ds))) ≡ is_some (lookup a (x ∷ ds))
      by_order lt e ih = ground (arith, lookup-Below a (x ∷ ds) e s, e)
      by_order eq e ih = ground (arith, e)
      by_order gt e ih = ground (arith, is_found-next (binary_search a (map key ds)), ih, e)

  lookup-head : (x : D) (xs : List D) → lookup (key x) (x ∷ xs) ≡ some x
  unfolding lookup
  lookup-head x xs = ground (arith, ==_iff (key x) (key x))

  lookup-tails :
      (x y : D) (xs ys : List D)
      → IsSorted (map key (x ∷ xs))
      → IsSorted (map key (y ∷ ys))
      → key x ≡ key y
      → ((b : A) → lookup b (x ∷ xs) ≡ lookup b (y ∷ ys))
      → (b : A) → lookup b xs ≡ lookup b ys
  unfolding lookup
  lookup-tails x y xs ys s t e h b = ground (
    arith,
    h b,
    e,
    ==_iff b (key x),
    ==_iff b (key y),
    lookup-Below (key x) xs s.0 s.1,
    lookup-Below (key y) ys t.0 t.1,
  )

  -- Ordered vectors with the same entry at each key are equal.
  pub lookup_unique :
      (xs ys : List D)
      → IsSorted (map key xs)
      → IsSorted (map key ys)
      → ((b : A) → lookup b xs ≡ lookup b ys)
      → xs ≡ ys
  unfolding lookup
  lookup_unique [] [] s t h = refl
  lookup_unique [] (y ∷ ys) s t h = ground (arith, h (key y), lookup-head y ys)
  lookup_unique (x ∷ xs) [] s t h = ground (arith, h (key x), lookup-head x xs)
  lookup_unique (x ∷ xs) (y ∷ ys) s t h =
      by_order (o.cmp (key x) (key y)) refl
        (λ e. lookup_unique xs ys s.1 t.1 (lookup-tails x y xs ys s t e h))
    where
      by_order :
          (r : Ordering) → o.cmp (key x) (key y) ≡ r → (key x ≡ key y → xs ≡ ys) → x ∷ xs ≡ y ∷ ys
      by_order lt e ih =
          ground (arith, h (key x), lookup-head x xs, lookup-Below (key x) (y ∷ ys) e t)
      by_order eq e ih = ground (
        arith,
        h (key x),
        lookup-head x xs,
        lookup-head y ys,
        o.unique (key x) (key y) e,
        ih (o.unique (key x) (key y) e),
      )
      by_order gt e ih = ground (
        arith,
        h (key y),
        lookup-head y ys,
        lookup-Below (key y) (x ∷ xs) (ground (arith, o.mirror (key x) (key y), e)) s,
      )
