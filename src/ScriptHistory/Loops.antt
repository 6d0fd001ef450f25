-- ===== src/ScriptHistory/Loops.antt =====
-- What the loops of `rev_history_page` push: the block transactions in reverse, as far as there is room.
use chronik.Prelude.{
  ℕ, zero, suc, ◌+◌, ◌-◌, ◌*◌, ◌<◌, ◌≤◌, ◌≡◌, refl, sym, ◌∙◌, ap, Bool, true, false, Option, none,
  some, List, [], ◌∷◌, ◌++◌, length, get_elem?, take, drop, nat_eq, Bool-cases, inl, inr, arith,
  if◌then◌else◌,
}
use chronik.Slp.{TxNum}
use chronik.ScriptHistory.{
  HistoryResult, ok, inconsistent_no_such_mempool_tx, inconsistent_no_such_block_tx_num, failed,
  panicked, ◌>>=◌, HistoryReader, block_item, tx_num_at, push_txs, go_on, push_pages,
}

abbrev pub push_opt : {A : Type 0} → Option A → List A → List A
push_opt none rest = rest
push_opt (some a) rest = a ∷ rest

-- The items below an index, downwards.
abbrev pub descending : {A : Type 0} → List A → ℕ → List A
descending xs zero = []
descending xs (suc i) = push_opt (get_elem? xs i) (descending xs i)

pub get_elem-within :
    {A : Type 0} (xs : List A) (i : ℕ) → i < length xs → (a : A) × (get_elem? xs i ≡ some a)
get_elem-within [] i h = absurd (omega arith)
get_elem-within (x ∷ xs) zero h = (x, refl)
get_elem-within (x ∷ xs) (suc i) h = get_elem-within xs i (omega arith)

pub bind-ap :
    {A B : Type 0} (m : HistoryResult A) {f g : A → HistoryResult B}
    → ((a : A) → f a ≡ g a)
    → (m >>= f) ≡ (m >>= g)
bind-ap (ok a) e = e a
bind-ap (inconsistent_no_such_mempool_tx txid) e = refl
bind-ap (inconsistent_no_such_block_tx_num n) e = refl
bind-ap failed e = refl
bind-ap panicked e = refl

bind-ok :
    {A B : Type 0} (m : HistoryResult A) (a : A) (f : A → HistoryResult B)
    → m ≡ ok a
    → (m >>= f) ≡ f a
bind-ok m a f e = ap (λ m. m >>= f) e

pub bind_assoc :
    {A B C : Type 0} (m : HistoryResult A) (f : A → HistoryResult B) (g : B → HistoryResult C)
    → ((m >>= f) >>= g) ≡ (m >>= λ a. f a >>= g)
bind_assoc (ok a) f g = refl
bind_assoc (inconsistent_no_such_mempool_tx txid) f g = refl
bind_assoc (inconsistent_no_such_block_tx_num n) f g = refl
bind_assoc failed f g = refl
bind_assoc panicked f g = refl

module _ {R : Type 0} (h : HistoryReader R) (size : ℕ) where
  -- One item after the other, until the page is full.
  abbrev pub fill : List TxNum → List R → HistoryResult (List R)
  fill [] page = ok page
  fill (x ∷ xs) page =
      if nat_eq (length page) size
      then ok page
      else (block_item h x >>= λ r. fill xs (page ++ r ∷ []))

  abbrev with_flag : List R → HistoryResult (List R × Bool)
  with_flag page = ok (page, nat_eq (length page) size)

  fill-full :
      (xs : List TxNum) (page : List R) → nat_eq (length page) size ≡ true → fill xs page ≡ ok page
  fill-full [] page e = refl
  fill-full (x ∷ xs) page e = rw e

  fill-append :
      (xs ys : List TxNum) (page : List R) → fill (xs ++ ys) page ≡ (fill xs page >>= fill ys)
  fill-append [] ys page = refl
  fill-append (x ∷ xs) ys page = elim (Bool-cases (nat_eq (length page) size)) [
    | inl full ↦ rw full (sym (fill-full ys page full))
    | inr room ↦ rw room (
        bind-ap (block_item h x) (λ r. fill-append xs ys (page ++ r ∷ []))
        ∙ sym (bind_assoc (block_item h x) (λ r. fill xs (page ++ r ∷ [])) (fill ys)))
  ]

  pushed_more :
      (tx_nums : List TxNum) (i : ℕ) (page : List R)
      → (nat_eq (length page) size ≡ false
          → push_txs h size tx_nums i page ≡ (fill (descending tx_nums i) page >>= with_flag))
      → (if nat_eq (length page) size then ok (page, true) else push_txs h size tx_nums i page)
        ≡ (fill (descending tx_nums i) page >>= with_flag)
  pushed_more tx_nums i page rest = elim (Bool-cases (nat_eq (length page) size)) [
    | inl full ↦
        rw (full, fill-full (descending tx_nums i) page full) (ap (λ b. ok (page, b)) (sym full))
    | inr more ↦ rw more (rest more)
  ]

  push_txs-suc :
      (tx_nums : List TxNum) (i : ℕ) (page : List R) (x : TxNum)
      → get_elem? tx_nums i ≡ some x
      → push_txs h size tx_nums (suc i) page ≡ (
          block_item h x >>= λ r.
          if nat_eq (length (page ++ r ∷ [])) size
          then ok (page ++ r ∷ [], true)
          else push_txs h size tx_nums i (page ++ r ∷ []))
  unfolding push_txs
  push_txs-suc tx_nums i page x e =
      bind-ok (tx_num_at h tx_nums i) x
        (λ x. block_item h x >>= λ r.
          if nat_eq (length (page ++ r ∷ [])) size
          then ok (page ++ r ∷ [], true)
          else push_txs h size tx_nums i (page ++ r ∷ []))
        (rw (e, tx_num_at))

  push_txs-fill :
      (tx_nums : List TxNum) (n : ℕ) (page : List R)
      → n ≤ length tx_nums
      → nat_eq (length page) size ≡ false
      → push_txs h size tx_nums n page ≡ (fill (descending tx_nums n) page >>= with_flag)
  unfolding push_txs
  push_txs-fill tx_nums zero page le room = ap (λ b. ok (page, b)) (sym room)
  push_txs-fill tx_nums (suc i) page le room =
      let x = get_elem-within tx_nums i le in
      push_txs-suc tx_nums i page x.0 x.1
      ∙ rw (x.1, room)
          (bind-ap (block_item h x.0) (λ r.
              pushed_more tx_nums i (page ++ r ∷ [])
                (push_txs-fill tx_nums i (page ++ r ∷ []) (omega arith)))
            ∙ sym (
                bind_assoc (block_item h x.0) (λ r. fill (descending tx_nums i) (page ++ r ∷ []))
                  with_flag))

suc-plus : (s i : ℕ) → suc (s + i) ≡ suc s + i
suc-plus s i = omega arith

plus-suc : (s j : ℕ) → s + suc j ≡ suc (s + j)
plus-suc s j = omega arith

module _ {A : Type 0} where
  get_elem-take : (xs : List A) (p i : ℕ) → i < p → get_elem? (take p xs) i ≡ get_elem? xs i
  get_elem-take xs zero i lt = absurd (omega arith)
  get_elem-take [] (suc p) i lt = refl
  get_elem-take (x ∷ xs) (suc p) zero lt = refl
  get_elem-take (x ∷ xs) (suc p) (suc i) lt = get_elem-take xs p i (omega arith)

  get_elem-drop : (xs : List A) (s i : ℕ) → get_elem? (drop s xs) i ≡ get_elem? xs (s + i)
  get_elem-drop xs zero i = ap (get_elem? xs) (omega arith)
  get_elem-drop [] (suc s) i = refl
  get_elem-drop (x ∷ xs) (suc s) i = get_elem-drop xs s i ∙ ap (get_elem? (x ∷ xs)) (suc-plus s i)

  pub push_opt-append :
      (o : Option A) (xs ys : List A) → push_opt o (xs ++ ys) ≡ push_opt o xs ++ ys
  push_opt-append none xs ys = refl
  push_opt-append (some x) xs ys = refl

  descending-slice :
      (xs : List A) (s p j : ℕ)
      → j ≤ p
      → descending xs (s + j) ≡ descending (take p (drop s xs)) j ++ descending xs s
  descending-slice xs s p zero le = ap (descending xs) (omega arith)
  descending-slice xs s p (suc j) le =
      ap (descending xs) (plus-suc s j)
      ∙ rw
          (
            get_elem-take (drop s xs) p j (omega arith),
            get_elem-drop xs s j,
            descending-slice xs s p j (omega arith),
          )
          (push_opt-append (get_elem? xs (s + j)) (descending (take p (drop s xs)) j)
            (descending xs s))

  pub length-drop : (s : ℕ) (xs : List A) → length (drop s xs) ≡ length xs - s
  length-drop zero xs = omega arith
  length-drop (suc s) [] = omega arith
  length-drop (suc s) (x ∷ xs) = omega (arith, length-drop s xs)

  pub length-take-lower : (p j : ℕ) (xs : List A) → j ≤ p → j ≤ length xs → j ≤ length (take p xs)
  length-take-lower zero j xs le l = le
  length-take-lower (suc p) j [] le l = l
  length-take-lower (suc p) zero (x ∷ xs) le l = omega arith
  length-take-lower (suc p) (suc j) (x ∷ xs) le l =
      omega (arith, length-take-lower p j xs (omega arith) (omega arith))

no_pages : (p : ℕ) → 0 ≡ 0 * p
no_pages p = omega arith

next_page : (n p : ℕ) → 0 < p → n * p + (p - 1 + 1) ≡ suc n * p
next_page n p h = omega arith

-- Every page holds its part of the numbers.
module _ {R : Type 0} (h : HistoryReader R) (size : ℕ) (tx_nums : List TxNum)
    (pages : (n : ℕ) → h.page_txs n ≡ take h.page_size (drop (n * h.page_size) tx_nums)) where
  outer-fill :
      (n first : ℕ) (page : List R)
      → first < h.page_size
      → n * h.page_size + first < length tx_nums
      → nat_eq (length page) size ≡ false
      → ((page' : List R)
          → nat_eq (length page') size ≡ false
          → push_pages h size n (h.page_size - 1) page'
            ≡ fill h size (descending tx_nums (n * h.page_size)) page')
      → push_pages h size (suc n) first page
        ≡ fill h size (descending tx_nums (n * h.page_size + (first + 1))) page
  unfolding push_pages
  outer-fill n first page inside within room rest =
      let slice = take h.page_size (drop (n * h.page_size) tx_nums) in
      let more = push_pages h size n (h.page_size - 1) in
      let before = descending tx_nums (n * h.page_size) in
      ap (λ txs. push_txs h size txs (first + 1) page >>= go_on h size more) (pages n)
      ∙ ap (λ m. m >>= go_on h size more)
          (push_txs-fill h size slice (first + 1) page
            (length-take-lower h.page_size (first + 1) (drop (n * h.page_size) tx_nums)
              (omega arith) (omega (arith, length-drop (n * h.page_size) tx_nums)))
            room)
      ∙ bind_assoc (fill h size (descending slice (first + 1)) page) (with_flag h size)
          (go_on h size more)
      ∙ bind-ap (fill h size (descending slice (first + 1)) page) (λ page'.
        elim (Bool-cases (nat_eq (length page') size)) [
          | inl full ↦ rw (full, fill-full h size before page' full)
          | inr more_room ↦ rw more_room (rest page' more_room)
        ])
      ∙ sym (fill-append h size (descending slice (first + 1)) before page)
      ∙ ap (λ xs. fill h size xs page)
          (sym (descending-slice tx_nums (n * h.page_size) h.page_size (first + 1) (omega arith)))

  pub push_pages-fill :
      (n first : ℕ) (page : List R)
      → first < h.page_size
      → n * h.page_size + first < length tx_nums
      → nat_eq (length page) size ≡ false
      → push_pages h size (suc n) first page
        ≡ fill h size (descending tx_nums (n * h.page_size + (first + 1))) page
  unfolding push_pages
  push_pages-fill zero first page inside within room =
      outer-fill 0 first page inside within room
        (λ page' more. ap (λ i. fill h size (descending tx_nums i) page') (no_pages h.page_size))
  push_pages-fill (suc n) first page inside within room =
      outer-fill (suc n) first page inside within room (λ page' more.
        push_pages-fill n (h.page_size - 1) page' (omega arith) (omega arith) more
        ∙ ap (λ i. fill h size (descending tx_nums i) page')
            (next_page n h.page_size (omega arith)))
