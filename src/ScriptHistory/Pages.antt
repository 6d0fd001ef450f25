-- ===== src/ScriptHistory/Pages.antt =====
-- What `rev_history_page` returns, its page and its errors.
use chronik.Prelude.{
  ℕ, suc, ◌+◌, ◌-◌, ◌*◌, ◌/◌, ◌%◌, ◌<◌, ◌≤◌, ◌≡◌, refl, sym, ◌∙◌, ap, true, false, ℤ, List, [], ◌∷◌,
  ◌++◌, length, take, drop, nat_eq, nat_eq_iff, ltb, Bool-cases, inl, inr, arith,
}
use mathlib.Core.List.{reverse}
use native.Mathlib.Nat.{div-add-mod', mod-lt}
use chronik.Chain.{Sha256d}
use chronik.Slp.{TxNum}
use chronik.ScriptHistory.{
  HistoryResult, ok, ◌>>=◌, traverse, HistoryReader, mempool_item, block_item, num_mempool_txs,
  num_block_txs, push_pages, sorted, push_block_txs, with_block_txs, rev_history_page, txs_or_empty,
  sort,
}
use chronik.ScriptHistory.Loops.{
  descending, push_pages-fill, bind_assoc, length-drop, length-take-lower,
}
use chronik.ScriptHistory.Laws.{
  traverse-bind, length-take-either, length-reverse, take-nil, full-size, some-room, filled,
  fill-traverse, descending-part,
}

-- A page with block transactions is sorted; one without any is as the mempool has it.
abbrev pub arranged : {R : Type 0} → HistoryReader R → List R → List R → List R
arranged h page [] = page
arranged h page (r ∷ rs) = sort h (page ++ r ∷ rs)

nonempty :
    {R C : Type 0} (n : ℕ) (j k : List R → C)
    → ((r : R) (rs : List R) → j (r ∷ rs) ≡ k (r ∷ rs))
    → (new : List R) → length new ≡ suc n
    → j new ≡ k new
nonempty n j k e [] l = absurd (omega arith)
nonempty n j k e (r ∷ rs) l = e r rs

module _ {R : Type 0} (h : HistoryReader R) where
  abbrev with_new : List R → List TxNum → HistoryResult (List R)
  with_new page xs = traverse (block_item h) xs >>= λ new. ok (arranged h page new)

  abbrev all_sorted : List R → List R → HistoryResult (List R)
  all_sorted page new = ok (sort h (page ++ new))

  filled-sorted :
      (size : ℕ) (page : List R) (xs : List TxNum)
      → 0 < length xs
      → (filled h size page xs >>= sorted h size) ≡ with_new page xs
  filled-sorted size page [] some = absurd (omega arith)
  filled-sorted size page (x ∷ xs) some =
      bind_assoc (traverse (block_item h) (x ∷ xs)) (λ new. ok (page ++ new)) (sorted h size)
      ∙ traverse-bind (block_item h) (x ∷ xs) (all_sorted page) (λ new. ok (arranged h page new))
          (nonempty (length xs) (all_sorted page) (λ new. ok (arranged h page new)) (λ r rs. refl))

module _ {R : Type 0} (h : HistoryReader R) (size page_num : ℕ) where
  -- The mempool's transactions of a page.
  abbrev pub mempool_part : List (ℤ × Sha256d)
  mempool_part = take size (drop (page_num * size) (reverse (txs_or_empty h.script_txs)))

  -- The numbers of its block transactions.
  abbrev pub block_part : List TxNum → List TxNum
  block_part tx_nums =
      take (size - length mempool_part)
        (drop (page_num * size - num_mempool_txs h) (reverse tx_nums))

  mempool_part-length :
      nat_eq (length mempool_part) size ≡ false
      → length mempool_part ≡ num_mempool_txs h - page_num * size
  unfolding num_mempool_txs
  mempool_part-length room =
      let rest = drop (page_num * size) (reverse (txs_or_empty h.script_txs)) in
      elim (length-take-either size rest) [
        | inl e ↦ ground (arith)
        | inr (e, l) ↦ omega (
          arith,
          length-drop (page_num * size) (reverse (txs_or_empty h.script_txs)),
          length-reverse (txs_or_empty h.script_txs),
        )
      ]

  mempool_part-upper : length mempool_part ≤ size
  mempool_part-upper =
      elim (length-take-either size
        (drop (page_num * size) (reverse (txs_or_empty h.script_txs)))) [
          | inl e ↦ omega arith
          | inr (e, l) ↦ omega arith
        ]

last_of : (f p : ℕ) → f / p * p + (f % p + 1) ≡ f + 1
last_of f p = omega (arith, div-add-mod' f p)

none_left : (b n d : ℕ) → nat_eq b 0 ≡ true → b ≡ n → 0 ≡ n - d
none_left b n d z e = omega (arith, (nat_eq_iff b 0).0 z)

past_end : (m b s n : ℕ) → ltb (m + b) (s + 1) ≡ true → b ≡ n → 0 ≡ n - (s - m)
past_end m b s n p e = ground arith

first_index :
    (m b s k n : ℕ)
    → ltb (m + b) (s + 1) ≡ false
    → nat_eq b 0 ≡ false
    → k ≡ m - s
    → b ≡ n
    → m + b - (s + 1) - k + 1 ≡ n - (s - m)
first_index m b s k n p some l e = ground arith

plus-one : (n : ℕ) → n + 1 ≡ suc n
plus-one n = omega arith

module _ {R : Type 0} (h : HistoryReader R) (size page_num : ℕ) (tx_nums : List TxNum)
    (pages : (n : ℕ) → h.page_txs n ≡ take h.page_size (drop (n * h.page_size) tx_nums))
    (paged : 0 < h.page_size) (counted : num_block_txs h ≡ length tx_nums) where
  push_block_txs-blocks :
      (first d : ℕ) (page : List R)
      → first + 1 ≡ length tx_nums - d
      → length page ≤ size
      → nat_eq (length page) size ≡ false
      → push_block_txs h size first page
        ≡ with_new h page (take (size - length page) (drop d (reverse tx_nums)))
  unfolding push_block_txs
  push_block_txs-blocks first d page e le room =
      let n = first / h.page_size in
      let i = first % h.page_size in
      ap (λ m. push_pages h size m i page >>= sorted h size) (plus-one n)
      ∙ ap (λ m. m >>= sorted h size)
          (push_pages-fill h size tx_nums pages n i page (mod-lt first paged)
              (omega (arith, div-add-mod' first h.page_size)) room
            ∙ fill-traverse h size (descending tx_nums (n * h.page_size + (i + 1))) page le
            ∙ ap (λ ys. filled h size page (take (size - length page) ys))
                (ap (descending tx_nums) (last_of first h.page_size ∙ e)
                  ∙ descending-part d tx_nums))
      ∙ filled-sorted h size page (take (size - length page) (drop d (reverse tx_nums))) (
          length-take-lower (size - length page) 1 (drop d (reverse tx_nums))
            (omega (arith, some-room (length page) size le room))
            (omega (arith, length-drop d (reverse tx_nums), length-reverse tx_nums)))

  no_blocks-left :
      (d k : ℕ) (page : List R)
      → 0 ≡ length tx_nums - d
      → ok page ≡ with_new h page (take k (drop d (reverse tx_nums)))
  no_blocks-left d k page e =
      ap (with_new h page) (sym (take-nil k))
      ∙ ap (λ ys. with_new h page (take k ys))
          (ap (descending tx_nums) e ∙ descending-part d tx_nums)

  with_block_txs-blocks :
      (page : List R)
      → length page ≡ length (mempool_part h size page_num)
      → with_block_txs h size page_num page ≡ with_new h page (block_part h size page_num tx_nums)
  with_block_txs-blocks page l =
      let d = page_num * size - num_mempool_txs h in
      let same = ap (λ n. with_new h page (take (size - n) (drop d (reverse tx_nums)))) l in
      elim (Bool-cases (nat_eq (length page) size)) [
        | inl full ↦ rw full (
            ap (with_new h page)
              (ap (λ n. take n (drop d (reverse tx_nums))) (full-size (length page) size full))
            ∙ same)
        | inr room ↦ elim (Bool-cases (nat_eq (num_block_txs h) 0)) [
          | inl none ↦
              rw (room, none)
                (no_blocks-left d (size - length page) page
                    (none_left (num_block_txs h) (length tx_nums) d none counted)
                  ∙ same)
          | inr some ↦
              elim (Bool-cases (ltb (num_mempool_txs h + num_block_txs h) (page_num * size + 1))) [
                | inl past ↦
                    rw (room, some, past)
                      (no_blocks-left d (size - length page) page (
                          past_end (num_mempool_txs h) (num_block_txs h) (page_num * size)
                            (length tx_nums) past counted)
                        ∙ same)
                | inr within ↦
                    rw (room, some, within)
                      (push_block_txs-blocks
                          (num_mempool_txs h
                            + num_block_txs h
                            - (page_num * size + 1)
                            - length page)
                          d page
                          (first_index (num_mempool_txs h) (num_block_txs h) (page_num * size)
                            (length page) (length tx_nums) within some
                            (l
                              ∙ mempool_part-length h size page_num
                                  (ap (λ n. nat_eq n size) (sym l) ∙ room))
                            counted)
                          (omega (arith, mempool_part-upper h size page_num)) room
                        ∙ same)
              ]
        ]
      ]

  -- A page of the history is the page's part of the script's transactions of the mempool, the last
  -- first, and then, as far as there is room, the part of its block transactions after the earlier pages,
  -- the last first, all sorted if it has block transactions; the first one that cannot be looked up gives
  -- its error. Given are that the script's pages hold its numbers in order, and their count.
  pub rev_history_page-reversed : rev_history_page h size page_num ≡ (
      traverse (mempool_item h) (mempool_part h size page_num) >>= λ page.
      traverse (block_item h) (block_part h size page_num tx_nums) >>= λ new.
      ok (arranged h page new))
  unfolding rev_history_page
  rev_history_page-reversed =
      traverse-bind (mempool_item h) (mempool_part h size page_num) (with_block_txs h size page_num)
        (λ page. with_new h page (block_part h size page_num tx_nums)) with_block_txs-blocks
