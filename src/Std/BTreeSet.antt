-- ===== src/Std/BTreeSet.antt =====
-- `BTreeSet`: a list without duplicates, in ascending order.
use Prim.Native.Nat.Ordering.{lt, eq, gt}
use chronik.Prelude.{
  ◌≡◌, refl, Bool, true, false, not, ◌||◌, ◌&&◌, List, [], ◌∷◌, arith, if◌then◌else◌,
}
use chronik.Std.Ord.{Ord, ◌==◌, ==_iff}

module _ {ℓ} {A : Type ℓ} ⦃o : Ord A⦄ where
  unfoldable pub contains : A → List A → Bool
  contains a [] = false
  contains a (x ∷ xs) = a == x || contains a xs

  unfoldable pub insert : A → List A → List A
  insert a [] = a ∷ []
  insert a (x ∷ xs) = elim (o.cmp a x) [ lt ↦ a ∷ x ∷ xs | eq ↦ x ∷ xs | gt ↦ x ∷ insert a xs ]

  -- A set holds an element once; every copy is dropped.
  unfoldable pub remove : A → List A → List A
  remove a [] = []
  remove a (x ∷ xs) = let rest = remove a xs in if a == x then rest else x ∷ rest

  pub contains-insert : (a b : A) (s : List A) → contains b (insert a s) ≡ (b == a || contains b s)
  unfolding contains insert ◌==◌
  contains-insert a b [] = refl
  contains-insert a b (x ∷ xs) = ground (arith, contains-insert a b xs, o.unique a x, o.same a)

  pub contains-remove :
      (a b : A) (s : List A) → contains b (remove a s) ≡ (not (b == a) && contains b s)
  unfolding contains remove
  contains-remove a b [] = ground arith
  contains-remove a b (x ∷ xs) =
      ground (arith, contains-remove a b xs, ==_iff a x, ==_iff b a, ==_iff b x)

  -- No item stands twice in the list.
  abbrev pub Distinct : List A → Type 0
  Distinct [] = Unit
  Distinct (x ∷ xs) = (contains x xs ≡ false) × Distinct xs

abbrev pub is_empty {ℓ} : {A : Type ℓ} → List A → Bool
is_empty [] = true
is_empty (x ∷ xs) = false
