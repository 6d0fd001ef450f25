-- ===== src/ScriptHistory.antt =====
-- chronik-indexer/src/script_history.rs: the transactions of a script, of the mempool and of the
-- blocks, the most recent first, in pages.
pub mod Loops
pub mod Laws
pub mod Pages
use chronik.Prelude.{
  ℕ, zero, suc, ◌+◌, ◌-◌, ◌*◌, ◌/◌, ◌%◌, ℤ, Bool, true, false, not, ◌||◌, Option, none, some, List,
  [], ◌∷◌, ◌++◌, length, get_elem?, take, drop, nat_eq, ltb, if◌then◌else◌,
}
use mathlib.Core.List.{reverse}
use Prim.Native.Nat.{Ordering}
use chronik.Std.Ord.{int_ord}
use chronik.Chain.{Sha256d}
use chronik.Slp.{TxNum}
use chronik.MempoolData.{MempoolTxEntry}
use chronik.Txs.{BlockTx}

-- `Result`, with the errors of `ScriptHistoryError`, one of a transaction that is looked up, and a panic.
pub data HistoryResult (A : Type 0) : Type 0 where
  ok : A → HistoryResult A
  inconsistent_no_such_mempool_tx : Sha256d → HistoryResult A
  inconsistent_no_such_block_tx_num : TxNum → HistoryResult A
  failed panicked : HistoryResult A

infixl 5 ◌>>=◌
abbrev pub ◌>>=◌ : {A B : Type 0} → HistoryResult A → (A → HistoryResult B) → HistoryResult B
ok a >>= f = f a
inconsistent_no_such_mempool_tx txid >>= f = inconsistent_no_such_mempool_tx txid
inconsistent_no_such_block_tx_num n >>= f = inconsistent_no_such_block_tx_num n
failed >>= f = failed
panicked >>= f = panicked

abbrev pub traverse : {A B : Type 0} → (A → HistoryResult B) → List A → HistoryResult (List B)
traverse f [] = ok []
traverse f (x ∷ xs) = do y ← f x; ys ← traverse f xs; ok (y ∷ ys)

-- What the history reads: of the script, the transactions of the mempool, the pages of the numbers of its
-- block transactions, with their size and number; the transactions; and how a transaction becomes one
-- with its SLP data (`rich_mempool_tx` and `rich_block_tx`), of which is used whether it is in a block and
-- its timestamp.
pub record HistoryReader (R : Type 0) : Type 0 where
  pub script_txs : Option (List (ℤ × Sha256d))
  pub mempool_tx : Sha256d → Option MempoolTxEntry
  pub page_size : ℕ
  pub page_txs : ℕ → List TxNum
  pub num_pages : ℕ
  pub by_tx_num : TxNum → Option BlockTx
  pub rich_mempool_tx : Sha256d → MempoolTxEntry → HistoryResult R
  pub rich_block_tx : TxNum → BlockTx → HistoryResult R
  pub is_in_block : R → Bool
  pub timestamp : R → ℤ

-- Whether the key `(tx.block.is_some(), -tx.timestamp())` of the first is not greater.
abbrev pub key_not_greater : Bool → Bool → ℤ → ℤ → Bool
key_not_greater true false t u = false
key_not_greater false true t u = true
key_not_greater true true t u = elim (int_ord.cmp u t) [ Ordering.gt ↦ false | _ ↦ true ]
key_not_greater false false t u = elim (int_ord.cmp u t) [ Ordering.gt ↦ false | _ ↦ true ]

-- `sort_by_key`, which is stable.
module _ {R : Type 0} (h : HistoryReader R) where
  abbrev pub comes_before : R → R → Bool
  comes_before r q =
      key_not_greater (h.is_in_block r) (h.is_in_block q) (h.timestamp r) (h.timestamp q)

  unfoldable pub insert_sorted : R → List R → List R
  insert_sorted r [] = r ∷ []
  insert_sorted r (q ∷ qs) = if comes_before r q then r ∷ q ∷ qs else q ∷ insert_sorted r qs

  unfoldable pub sort : List R → List R
  unfolding insert_sorted
  sort [] = []
  sort (r ∷ rs) = insert_sorted r (sort rs)

abbrev pub txs_or_empty : Option (List (ℤ × Sha256d)) → List (ℤ × Sha256d)
txs_or_empty none = []
txs_or_empty (some txs) = txs

module _ {R : Type 0} (h : HistoryReader R) where
  abbrev pub mempool_item : ℤ × Sha256d → HistoryResult R
  mempool_item (time, txid) = elim (h.mempool_tx txid) [
    | none ↦ inconsistent_no_such_mempool_tx txid
    | some entry ↦ h.rich_mempool_tx txid entry
  ]

  abbrev pub block_item : TxNum → HistoryResult R
  block_item tx_num = elim (h.by_tx_num tx_num) [
    | none ↦ inconsistent_no_such_block_tx_num tx_num
    | some block_tx ↦ h.rich_block_tx tx_num block_tx
  ]

  unfoldable pub num_mempool_txs : ℕ
  num_mempool_txs = length (txs_or_empty h.script_txs)

  unfoldable pub num_block_txs : ℕ
  num_block_txs =
      if nat_eq h.num_pages 0
      then 0
      else h.page_size * (h.num_pages - 1) + length (h.page_txs (h.num_pages - 1))

  -- `db_page_tx_nums[inner_idx]`
  abbrev pub tx_num_at : List TxNum → ℕ → HistoryResult TxNum
  tx_num_at tx_nums i = elim (get_elem? tx_nums i) [ none ↦ panicked | some n ↦ ok n ]

  module _ (history_page_size : ℕ) where
    -- The inner loop over the indices below a number, downwards; the flag is `break 'outer`.
    unfoldable pub push_txs : List TxNum → ℕ → List R → HistoryResult (List R × Bool)
    push_txs tx_nums zero page = ok (page, false)
    push_txs tx_nums (suc i) page = do
      tx_num ← tx_num_at tx_nums i
      rich_tx ← block_item tx_num
      let page' = page ++ rich_tx ∷ []
      let rest = push_txs tx_nums i page'
      if nat_eq (length page') history_page_size then ok (page', true) else rest

    abbrev pub go_on : (List R → HistoryResult (List R)) → List R × Bool → HistoryResult (List R)
    go_on more (page, true) = ok page
    go_on more (page, false) = more page

    -- The outer loop over the database pages below a number, downwards.
    unfoldable pub push_pages : ℕ → ℕ → List R → HistoryResult (List R)
    unfolding push_txs
    push_pages zero first_inner_idx page = ok page
    push_pages (suc n) first_inner_idx page =
        push_txs (h.page_txs n) (first_inner_idx + 1) page
        >>= go_on (push_pages n (h.page_size - 1))

    abbrev pub sorted : List R → HistoryResult (List R)
    sorted page = ok (sort h page)

    -- The rest of a page that the mempool does not fill; `first_tx_idx` is the first index to query.
    unfoldable pub push_block_txs : ℕ → List R → HistoryResult (List R)
    unfolding push_pages sort
    push_block_txs first_tx_idx page =
        push_pages (first_tx_idx / h.page_size + 1) (first_tx_idx % h.page_size) page >>= sorted

    abbrev pub with_block_txs : ℕ → List R → HistoryResult (List R)
    with_block_txs history_page_num page =
        let total = num_mempool_txs + num_block_txs in
        let skipped = history_page_num * history_page_size + 1 in
        if nat_eq (length page) history_page_size || nat_eq num_block_txs 0
        then ok page
        else if ltb total skipped
        then ok page
        else push_block_txs (total - skipped - length page) page

    unfoldable pub rev_history_page : ℕ → HistoryResult (List R)
    unfolding num_mempool_txs num_block_txs push_block_txs
    rev_history_page history_page_num = do
      page ← traverse mempool_item (
          take history_page_size
            (drop (history_page_num * history_page_size) (reverse (txs_or_empty h.script_txs))))
      with_block_txs history_page_num page

  -- It panics for a page size of 0.
  unfoldable pub rev_history_num_pages : ℕ → HistoryResult ℕ
  unfolding num_mempool_txs num_block_txs
  rev_history_num_pages page_size =
      if nat_eq page_size 0
      then panicked
      else ok ((num_mempool_txs + num_block_txs + page_size - 1) / page_size)
