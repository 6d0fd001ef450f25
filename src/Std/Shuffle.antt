-- ===== src/Std/Shuffle.antt =====
-- Lists that hold the same items in some order, and the order in which a hash map is iterated.
use chronik.Prelude.{
  All, suc, ◌≡◌, refl, ap, ◌∙◌, Bool, ◌||◌, List, [], ◌∷◌, ◌++◌, length, any, arith,
}

pub data Shuffle {ℓ} {A : Type ℓ} : List A → List A → Type ℓ where
  same : (xs : List A) → Shuffle xs xs
  keep : (x : A) {xs ys : List A} → Shuffle xs ys → Shuffle (x ∷ xs) (x ∷ ys)
  swap : (x y : A) (xs : List A) → Shuffle (x ∷ y ∷ xs) (y ∷ x ∷ xs)
  trans : {xs ys zs : List A} → Shuffle xs ys → Shuffle ys zs → Shuffle xs zs

module _ {ℓ} {A : Type ℓ} where
  pub Shuffle-sym : {xs ys : List A} → Shuffle xs ys → Shuffle ys xs
  Shuffle-sym (same xs) = same xs
  Shuffle-sym (keep x h) = keep x (Shuffle-sym h)
  Shuffle-sym (swap x y xs) = swap y x xs
  Shuffle-sym (trans h k) = trans (Shuffle-sym k) (Shuffle-sym h)

  pub any-Shuffle : (p : A → Bool) {xs ys : List A} → Shuffle xs ys → any p xs ≡ any p ys
  any-Shuffle p (same xs) = refl
  any-Shuffle p (keep x h) = ap (λ b. p x || b) (any-Shuffle p h)
  any-Shuffle p (swap x y xs) = ground arith
  any-Shuffle p (trans h k) = any-Shuffle p h ∙ any-Shuffle p k

  pub length-Shuffle : {xs ys : List A} → Shuffle xs ys → length xs ≡ length ys
  length-Shuffle (same xs) = refl
  length-Shuffle (keep x h) = ap suc (length-Shuffle h)
  length-Shuffle (swap x y xs) = refl
  length-Shuffle (trans h k) = length-Shuffle h ∙ length-Shuffle k

  -- An item may stand between the parts.
  pub Shuffle-middle : (xs : List A) (y : A) (ys : List A) → Shuffle (xs ++ y ∷ ys) (y ∷ (xs ++ ys))
  Shuffle-middle [] y ys = same (y ∷ ys)
  Shuffle-middle (x ∷ xs) y ys = trans (keep x (Shuffle-middle xs y ys)) (swap x y (xs ++ ys))

  pub Shuffle-append :
      (xs : List A) {ys zs : List A} → Shuffle ys zs → Shuffle (xs ++ ys) (xs ++ zs)
  Shuffle-append [] h = h
  Shuffle-append (x ∷ xs) h = keep x (Shuffle-append xs h)

pub All-Shuffle {ℓ κ} :
    {A : Type ℓ} (P : A → Type κ) {xs ys : List A} → Shuffle xs ys → All P xs → All P ys
All-Shuffle P (same xs) h = h
All-Shuffle P (keep x sh) (p, h) = (p, All-Shuffle P sh h)
All-Shuffle P (swap x y xs) (p, (q, h)) = (q, (p, h))
All-Shuffle P (trans sh sh') h = All-Shuffle P sh' (All-Shuffle P sh h)
