-- ===== src/ScriptHistory/Laws.antt =====
-- Lemmas for the pages of `rev_history_page`: the filled page as lookups in order, lengths of parts,
-- and the items downwards as those of the reversed list.
use chronik.Prelude.{
  ℕ, zero, suc, ◌+◌, ◌-◌, ◌≤◌, ◌≡◌, refl, sym, ◌∙◌, ap, true, false, List, [], ◌∷◌, ◌++◌,
  append_assoc, length, length-append, get_elem?, take, drop, nat_eq, nat_eq_iff, Bool-cases, ◌⊎◌,
  inl, inr, arith,
}
use mathlib.Core.List.{reverse, reverse_aux, reverse-cons}
use chronik.Slp.{TxNum}
use chronik.ScriptHistory.{HistoryResult, ok, ◌>>=◌, traverse, HistoryReader, block_item}
use chronik.ScriptHistory.Loops.{
  fill, descending, bind-ap, bind_assoc, get_elem-within, push_opt, push_opt-append,
}

pub traverse-bind :
    {A B C : Type 0} (f : A → HistoryResult B) (xs : List A) (j k : List B → HistoryResult C)
    → ((ys : List B) → length ys ≡ length xs → j ys ≡ k ys)
    → (traverse f xs >>= j) ≡ (traverse f xs >>= k)
traverse-bind f [] j k e = e [] refl
traverse-bind f (x ∷ xs) j k e =
    bind_assoc (f x) (λ y. traverse f xs >>= λ ys. ok (y ∷ ys)) j
    ∙ bind-ap (f x) (λ y.
      bind_assoc (traverse f xs) (λ ys. ok (y ∷ ys)) j
      ∙ traverse-bind f xs (λ ys. j (y ∷ ys)) (λ ys. k (y ∷ ys)) (λ ys l. e (y ∷ ys) (ap suc l))
      ∙ sym (bind_assoc (traverse f xs) (λ ys. ok (y ∷ ys)) k))
    ∙ sym (bind_assoc (f x) (λ y. traverse f xs >>= λ ys. ok (y ∷ ys)) k)

module _ {A : Type 0} where
  pub length-take-either :
      (p : ℕ) (xs : List A)
      → (length (take p xs) ≡ p) ⊎ ((length (take p xs) ≡ length xs) × (length xs ≤ p))
  length-take-either zero xs = inl refl
  length-take-either (suc p) [] = inr (refl, omega arith)
  length-take-either (suc p) (x ∷ xs) = elim (length-take-either p xs) [
    | inl e ↦ inl (ap suc e)
    | inr (e, l) ↦ inr (ap suc e, omega arith)
  ]

  pub append-nil : (xs : List A) → xs ++ [] ≡ xs
  append-nil [] = refl
  append-nil (x ∷ xs) = ap (λ r. x ∷ r) (append-nil xs)

  length-reverse_aux : (xs acc : List A) → length (reverse_aux xs acc) ≡ length xs + length acc
  length-reverse_aux [] acc = omega arith
  length-reverse_aux (x ∷ xs) acc = omega (arith, length-reverse_aux xs (x ∷ acc))

  pub length-reverse : (xs : List A) → length (reverse xs) ≡ length xs
  length-reverse xs = omega (arith, length-reverse_aux xs [])

  pub take-nil : (n : ℕ) → take {A = A} n [] ≡ []
  take-nil zero = refl
  take-nil (suc n) = refl

minus-zero : (n : ℕ) → n ≡ n - 0
minus-zero n = omega arith

zero-minus : (d : ℕ) → 0 ≡ 0 - d
zero-minus d = omega arith

minus-suc : (n d : ℕ) → n - d ≡ suc n - suc d
minus-suc n d = omega arith

pub full-size : (n size : ℕ) → nat_eq n size ≡ true → 0 ≡ size - n
full-size n size e = omega (arith, (nat_eq_iff n size).0 e)

pub some-room : (n size : ℕ) → n ≤ size → nat_eq n size ≡ false → suc (size - n - 1) ≡ size - n
some-room n size le e = ground arith

one-less :
    {A : Type 0} (xs : List A) (x : A) (size : ℕ)
    → size - length (xs ++ x ∷ []) ≡ size - length xs - 1
one-less xs x size = omega (arith, length-append xs (x ∷ []))

one-longer :
    {A : Type 0} (xs : List A) (x : A) (size : ℕ)
    → length xs ≤ size
    → nat_eq (length xs) size ≡ false
    → length (xs ++ x ∷ []) ≤ size
one-longer xs x size le e =
    omega (arith, length-append xs (x ∷ []), some-room (length xs) size le e)

module _ {R : Type 0} (h : HistoryReader R) (size : ℕ) where
  abbrev pub filled : List R → List TxNum → HistoryResult (List R)
  filled page xs = traverse (block_item h) xs >>= λ new. ok (page ++ new)

  filled-cons :
      (x : TxNum) (xs : List TxNum) (page : List R)
      → filled page (x ∷ xs) ≡ (block_item h x >>= λ r. filled (page ++ r ∷ []) xs)
  filled-cons x xs page =
      bind_assoc (block_item h x) (λ r. traverse (block_item h) xs >>= λ rs. ok (r ∷ rs))
        (λ new. ok (page ++ new))
      ∙ bind-ap (block_item h x) (λ r.
        bind_assoc (traverse (block_item h) xs) (λ rs. ok (r ∷ rs)) (λ new. ok (page ++ new))
        ∙ bind-ap (traverse (block_item h) xs) (λ rs. ap ok (sym (append_assoc page (r ∷ []) rs))))

  pub fill-traverse :
      (xs : List TxNum) (page : List R)
      → length page ≤ size
      → fill h size xs page ≡ filled page (take (size - length page) xs)
  fill-traverse [] page le = rw (take-nil {A = TxNum}) (ap ok (sym (append-nil page)))
  fill-traverse (x ∷ xs) page le = elim (Bool-cases (nat_eq (length page) size)) [
    | inl full ↦ rw full (
        ap ok (sym (append-nil page))
        ∙ ap (λ n. filled page (take n (x ∷ xs))) (full-size (length page) size full))
    | inr room ↦ rw room (
        bind-ap (block_item h x) (λ r.
          fill-traverse xs (page ++ r ∷ []) (one-longer page r size le room)
          ∙ ap (λ n. filled (page ++ r ∷ []) (take n xs)) (one-less page r size))
        ∙ sym (filled-cons x (take (size - length page - 1) xs) page)
        ∙ ap (λ n. filled page (take n (x ∷ xs))) (some-room (length page) size le room))
  ]

-- The items downwards are those of the reversed list.
module _ {A : Type 0} where
  descending-cons :
      (x : A) (xs : List A) (n : ℕ) → descending (x ∷ xs) (suc n) ≡ descending xs n ++ x ∷ []
  descending-cons x xs zero = refl
  descending-cons x xs (suc n) =
      ap (push_opt (get_elem? xs n)) (descending-cons x xs n)
      ∙ push_opt-append (get_elem? xs n) (descending xs n) (x ∷ [])

  descending-reverse : (xs : List A) → descending xs (length xs) ≡ reverse xs
  descending-reverse [] = refl
  descending-reverse (x ∷ xs) =
      descending-cons x xs (length xs)
      ∙ ap (λ ys. ys ++ x ∷ []) (descending-reverse xs)
      ∙ sym (reverse-cons x xs)

  drop-descending :
      (d n : ℕ) (xs : List A) → n ≤ length xs → drop d (descending xs n) ≡ descending xs (n - d)
  drop-descending zero n xs le = ap (descending xs) (minus-zero n)
  drop-descending (suc d) zero xs le = ap (descending xs) (zero-minus (suc d))
  drop-descending (suc d) (suc n) xs le =
      let x = get_elem-within xs n le in
      rw (x.1) (drop-descending d n xs (omega arith) ∙ ap (descending xs) (minus-suc n d))

  pub descending-part : (d : ℕ) (xs : List A) → descending xs (length xs - d) ≡ drop d (reverse xs)
  descending-part d xs =
      sym (drop-descending d (length xs) xs (omega arith)) ∙ ap (drop d) (descending-reverse xs)
