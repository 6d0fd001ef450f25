-- ===== src/Std/Ord.antt =====
-- `Ord` with the laws that the trait asks for, and the instances that the crates derive.
use Prim.Native.Nat.Ordering.{lt, eq, gt}
use chronik.Prelude.{
  ℕ, compare, Ordering, ◌≡◌, refl, ◌↔◌, Bool, true, false, List, [], ◌∷◌, arith, ℤ, pos, negsuc,
}

-- `Ordering::reverse` and `Ordering::then`.
abbrev pub flip : Ordering → Ordering
flip lt = gt
flip eq = eq
flip gt = lt

abbrev pub then : Ordering → Ordering → Ordering
then eq second = second
then lt second = lt
then gt second = gt

pub record Laws {ℓ} {A : Type ℓ} (c : A → A → Ordering) : Type ℓ where
  pub same : (x : A) → c x x ≡ eq
  pub unique : (x y : A) → c x y ≡ eq → x ≡ y
  pub mirror : (x y : A) → c y x ≡ flip (c x y)
  pub chain : (x y z : A) → c x y ≡ lt → c y z ≡ lt → c x z ≡ lt

pub record Ord {ℓ} (A : Type ℓ) : Type ℓ where
  pub cmp : A → A → Ordering
  pub laws : Laws cmp
  pub open laws use *

abbrev pub is_eq : Ordering → Bool
is_eq eq = true
is_eq lt = false
is_eq gt = false

infix 50 ◌==◌
unfoldable pub ◌==◌ {ℓ} : {A : Type ℓ} ⦃o : Ord A⦄ → A → A → Bool
◌==◌ ⦃o⦄ a b = is_eq (o.cmp a b)

module _ {ℓ} {A : Type ℓ} ⦃o : Ord A⦄ where
  pub ==_iff : (a b : A) → ((a == b) ≡ true) ↔ (a ≡ b)
  unfolding ◌==◌
  ==_iff a b = ground (arith, o.same a, o.unique a b)

  pub ==_refl : (a : A) → (a == a) ≡ true
  ==_refl a = (==_iff a a).1 refl

pub compare-Laws : Laws compare
compare-Laws = ground arith

instance unfoldable pub nat_ord : Ord ℕ
nat_ord = record { cmp = compare; laws = compare-Laws }

unfoldable pub compare_int : ℤ → ℤ → Ordering
compare_int (pos a) (pos b) = compare a b
compare_int (pos a) (negsuc b) = gt
compare_int (negsuc a) (pos b) = lt
compare_int (negsuc a) (negsuc b) = compare b a

pub compare_int-Laws : Laws compare_int
unfolding compare_int
compare_int-Laws = ground arith

instance unfoldable pub int_ord : Ord ℤ
unfolding compare_int
int_ord = record { cmp = compare_int; laws = compare_int-Laws }

module _ {ℓ κ} {A : Type ℓ} {B : Type κ} ⦃a : Ord A⦄ ⦃b : Ord B⦄ where
  -- Tuples compare by their first parts, then by their second.
  unfoldable pub in_turn : A × B → A × B → Ordering
  in_turn p q = then (a.cmp p.0 q.0) (b.cmp p.1 q.1)

  pub in_turn-Laws : Laws {A = A × B} in_turn
  unfolding in_turn
  in_turn-Laws = record {
    same = λ p. simp (a.same, b.same);
    unique = λ p q. ground (arith, a.unique p.0 q.0, b.unique p.1 q.1);
    mirror = λ p q. ground (arith, a.mirror p.0 q.0, b.mirror p.1 q.1);
    chain = λ p q r. ground (
      arith,
      a.unique p.0 q.0,
      a.unique q.0 r.0,
      a.same p.0,
      a.chain p.0 q.0 r.0,
      b.chain p.1 q.1 r.1,
    );
  }

  instance unfoldable pub pair_ord : Ord (A × B)
  unfolding in_turn
  pair_ord = record { cmp = in_turn; laws = in_turn-Laws }

module _ {ℓ} {A : Type ℓ} ⦃a : Ord A⦄ where
  -- Slices compare item by item; a proper prefix is less.
  unfoldable pub dictionary : List A → List A → Ordering
  dictionary [] [] = eq
  dictionary [] (y ∷ ys) = lt
  dictionary (x ∷ xs) [] = gt
  dictionary (x ∷ xs) (y ∷ ys) = then (a.cmp x y) (dictionary xs ys)

  dictionary_same : (xs : List A) → dictionary xs xs ≡ eq
  unfolding dictionary
  dictionary_same [] = refl
  dictionary_same (x ∷ xs) = ground (arith, a.same x, dictionary_same xs)

  dictionary_unique : (xs ys : List A) → dictionary xs ys ≡ eq → xs ≡ ys
  unfolding dictionary
  dictionary_unique (x ∷ xs) (y ∷ ys) h = ground (arith, a.unique x y, dictionary_unique xs ys)
  dictionary_unique [] [] h = refl
  dictionary_unique _ _ h = ground arith

  dictionary_mirror : (xs ys : List A) → dictionary ys xs ≡ flip (dictionary xs ys)
  unfolding dictionary
  dictionary_mirror (x ∷ xs) (y ∷ ys) = ground (arith, a.mirror x y, dictionary_mirror xs ys)
  dictionary_mirror [] [] = refl
  dictionary_mirror _ _ = ground arith

  dictionary_chain :
      (xs ys zs : List A) → dictionary xs ys ≡ lt → dictionary ys zs ≡ lt → dictionary xs zs ≡ lt
  unfolding dictionary
  dictionary_chain (x ∷ xs) (y ∷ ys) (z ∷ zs) h k =
      ground (arith, a.unique x y, a.unique y z, a.same x, a.chain x y z, dictionary_chain xs ys zs)
  dictionary_chain [] ys [] h k = ground (arith, dictionary_mirror ys [])
  dictionary_chain [] _ (z ∷ zs) h k = refl
  dictionary_chain (x ∷ xs) [] zs h k = ground arith
  dictionary_chain (x ∷ xs) (y ∷ ys) [] h k = ground arith

  pub dictionary-Laws : Laws dictionary
  dictionary-Laws = record {
    same = dictionary_same;
    unique = dictionary_unique;
    mirror = dictionary_mirror;
    chain = dictionary_chain;
  }

  instance unfoldable pub list_ord : Ord (List A)
  unfolding dictionary
  list_ord = record { cmp = dictionary; laws = dictionary-Laws }

-- A struct compares as the tuple of its fields does.
module _ {ℓ κ} {A : Type ℓ} {B : Type κ} ⦃b : Ord B⦄ (fields : A → B) where
  abbrev pub cmp_fields : A → A → Ordering
  cmp_fields x y = b.cmp (fields x) (fields y)

  pub cmp_fields-Laws : ((x y : A) → fields x ≡ fields y → x ≡ y) → Laws cmp_fields
  cmp_fields-Laws injective = record {
    same = λ x. b.same (fields x);
    unique = λ x y h. injective x y (b.unique (fields x) (fields y) h);
    mirror = λ x y. b.mirror (fields x) (fields y);
    chain = λ x y z. b.chain (fields x) (fields y) (fields z);
  }
