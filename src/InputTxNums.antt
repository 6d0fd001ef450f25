-- ===== src/InputTxNums.antt =====
-- chronik-rocksdb/src/input_tx_nums.rs: the numbers of the transactions that a block's inputs spend.
use chronik.Prelude.{ℕ, ◌+◌, Option, none, some, List, [], ◌∷◌, enumerate, tail}
use chronik.Std.Ord.{nat_ord}
use chronik.Std.HashMap
use chronik.Std.HashMap.{HashMap}
use chronik.Std.Keyed.{or_else}
use chronik.Chain.{Sha256d, TxInput, UnhashedTx}
use chronik.Slp.{TxNum}

-- `Result`, with the error `UnknownInputSpent`.
pub data Fetched (A : Type 0) : Type 0 where
  fetched : A → Fetched A
  unknown_input_spent : TxInput → Fetched A

-- The numbers of the block's own transactions, a later one first.
abbrev pub number_txs :
    TxNum → (ℕ → Sha256d) → List (ℕ × UnhashedTx) → HashMap Sha256d TxNum → HashMap Sha256d TxNum
number_txs first_tx_num txid [] m = m
number_txs first_tx_num txid ((tx_idx, tx) ∷ txs) m =
    number_txs first_tx_num txid txs (HashMap.insert (txid tx_idx) (first_tx_num + tx_idx) m)

-- The number of a transaction of the block, or of the database.
abbrev pub tx_num_of :
    TxNum → (ℕ → Sha256d) → (Sha256d → Option TxNum) → List UnhashedTx → Sha256d → Option TxNum
tx_num_of first_tx_num txid tx_num_by_txid txs id =
    or_else (number_txs first_tx_num txid (enumerate 0 txs) HashMap.empty id) (tx_num_by_txid id)

abbrev pub cons_fetched : {A : Type 0} → A → Fetched (List A) → Fetched (List A)
cons_fetched a (fetched rest) = fetched (a ∷ rest)
cons_fetched a (unknown_input_spent input) = unknown_input_spent input

abbrev pub fetch_input : TxInput → Option TxNum → Fetched (List TxNum) → Fetched (List TxNum)
fetch_input input (some n) rest = cons_fetched n rest
fetch_input input none rest = unknown_input_spent input

abbrev pub fetch_tx :
    Fetched (List TxNum) → Fetched (List (List TxNum)) → Fetched (List (List TxNum))
fetch_tx (fetched nums) rest = cons_fetched nums rest
fetch_tx (unknown_input_spent input) rest = unknown_input_spent input

module _ (num_of : Sha256d → Option TxNum) where
  abbrev pub fetch_inputs : List TxInput → Fetched (List TxNum)
  fetch_inputs [] = fetched []
  fetch_inputs (input ∷ inputs) =
      fetch_input input (num_of input.prev_out.txid) (fetch_inputs inputs)

  abbrev pub fetch_txs : List UnhashedTx → Fetched (List (List TxNum))
  fetch_txs [] = fetched []
  fetch_txs (tx ∷ txs) = fetch_tx (fetch_inputs tx.inputs) (fetch_txs txs)

unfoldable pub fetch_input_tx_nums :
    TxNum → (ℕ → Sha256d) → (Sha256d → Option TxNum) → List UnhashedTx → Fetched (List (List TxNum))
fetch_input_tx_nums first_tx_num txid tx_num_by_txid txs =
    fetch_txs (tx_num_of first_tx_num txid tx_num_by_txid txs) (tail txs)
