-- ===== src/Tests/ScriptHistories.antt =====
-- A script with two transactions in the mempool and five in blocks, and pages of each.
use chronik.Prelude.{
  ℕ, ◌*◌, ◌≡◌, refl, Bool, true, false, pos, some, List, [], ◌∷◌, length, take, drop, arith,
}
use chronik.Std.Ord.{int_ord}
use chronik.Slp.{TxNum}
use chronik.ScriptHistory.{
  ok, ◌>>=◌, traverse, HistoryReader, mempool_item, block_item, num_mempool_txs, num_block_txs,
  rev_history_page, rev_history_num_pages, push_block_txs, push_pages, push_txs, sort,
  insert_sorted,
}
use chronik.ScriptHistory.Pages.{arranged, mempool_part, block_part, rev_history_page-reversed}
use chronik.Tests.Chain.{tx_entry}
use chronik.Tests.Fixture.{parent_entry}

abbrev tx_nums : List TxNum
tx_nums = 10 ∷ 11 ∷ 15 ∷ 16 ∷ 20 ∷ []

-- A transaction as whether it is in a block, and its number or its hash.
abbrev history : HistoryReader (Bool × ℕ)
history = record {
  script_txs = some ((pos 1, 101) ∷ (pos 2, 102) ∷ []);
  mempool_tx = λ txid. some parent_entry;
  page_size = 2;
  page_txs = λ n. take 2 (drop (n * 2) tx_nums);
  num_pages = 3;
  by_tx_num = λ n. some (record { entry = tx_entry n; block_height = n });
  rich_mempool_tx = λ txid entry. ok (false, txid);
  rich_block_tx = λ n block_tx. ok (true, n);
  is_in_block = λ r. r.0;
  timestamp = λ r. pos r.1;
}

first_page : rev_history_page history 3 0 ≡ ok ((false, 102) ∷ (false, 101) ∷ (true, 20) ∷ [])
unfolding rev_history_page num_mempool_txs num_block_txs push_block_txs push_pages push_txs sort
    insert_sorted int_ord
first_page = refl

last_page : rev_history_page history 3 2 ≡ ok ((true, 10) ∷ [])
unfolding rev_history_page num_mempool_txs num_block_txs push_block_txs push_pages push_txs sort
    insert_sorted int_ord
last_page = refl

three_pages : rev_history_num_pages history 3 ≡ ok 3
unfolding rev_history_num_pages num_mempool_txs num_block_txs
three_pages = refl

counted : num_block_txs history ≡ length tx_nums
unfolding num_block_txs
counted = refl

rev_history_page-reversed_example : rev_history_page history 3 0 ≡ (
    traverse (mempool_item history) (mempool_part history 3 0) >>= λ page.
    traverse (block_item history) (block_part history 3 0 tx_nums) >>= λ new.
    ok (arranged history page new))
rev_history_page-reversed_example =
    rev_history_page-reversed history 3 0 tx_nums (λ n. refl) (omega arith) counted
