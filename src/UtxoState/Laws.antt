-- ===== src/UtxoState/Laws.antt =====
-- The state of an output, from the transactions and the spends that exist.
use chronik.Prelude.{
  ℕ, ◌≡◌, refl, Bool, true, false, ◌||◌, Option, none, some, any, length, leb, nat_eq, arith,
  if◌then◌else◌,
}
use chronik.Chain.{OutPoint}
use chronik.Slp.{TxNum}
use chronik.MempoolData.{MempoolData, MempoolTxEntry}
use chronik.Txs.{BlockHeight, BlockTx}
use chronik.UtxoState.{
  UtxoState, UtxoStateVariant, unspent, spent, no_such_tx, no_such_output, ChainReader,
  is_spent_in_mempool, mempool_state, chain_state, utxo_state,
}

-- The number of outputs of a transaction, wherever it is.
abbrev pub num_outputs : ChainReader → Option MempoolTxEntry → Option (TxNum × BlockTx) → Option ℕ
num_outputs chain (some entry) stored = some (length entry.tx.outputs)
num_outputs chain none (some (tx_num, block_tx)) = some (length (chain.raw_tx block_tx).outputs)
num_outputs chain none none = none

abbrev pub is_spent_in_chain : ChainReader → OutPoint → Option (TxNum × BlockTx) → Bool
is_spent_in_chain chain o none = false
is_spent_in_chain chain o (some (tx_num, block_tx)) =
    any (λ s. nat_eq s.out_idx o.out_idx) (chain.spends_by_tx_num tx_num)

-- The state of an output of a transaction with so many outputs.
abbrev pub expected : Option ℕ → Bool → ℕ → UtxoStateVariant
expected none is_spent out_idx = no_such_tx
expected (some n) true out_idx = spent
expected (some n) false out_idx = if leb n out_idx then no_such_output else unspent

abbrev pub expected_height : Option MempoolTxEntry → Option (TxNum × BlockTx) → Option BlockHeight
expected_height (some entry) stored = none
expected_height none none = none
expected_height none (some (tx_num, block_tx)) = some block_tx.block_height

abbrev joined :
    ChainReader → OutPoint → Option MempoolTxEntry → Option (TxNum × BlockTx) → Bool → UtxoState
joined chain o entry stored b = elim (mempool_state b entry o) [
  | some state ↦ state
  | none ↦ chain_state chain b o stored
]

joined-expected :
    (chain : ChainReader) (o : OutPoint) (entry : Option MempoolTxEntry)
    (stored : Option (TxNum × BlockTx)) (b : Bool)
    → ((e : MempoolTxEntry) → entry ≡ some e → stored ≡ none)
    → ((joined chain o entry stored b).state
        ≡ expected
            (num_outputs chain entry stored)
            (b || is_spent_in_chain chain o stored)
            o.out_idx)
      × ((joined chain o entry stored b).height ≡ expected_height entry stored)
joined-expected chain o none none true h = (refl, refl)
joined-expected chain o none none false h = (refl, refl)
joined-expected chain o none (some (n, t)) true h = (refl, refl)
joined-expected chain o none (some (n, t)) false h = (ground arith, refl)
joined-expected chain o (some e) none true h = (refl, refl)
joined-expected chain o (some e) none false h = (ground arith, ground arith)
joined-expected chain o (some e) (some item) b h = ground (arith, h e refl)

pub utxo_state-expected :
    (mempool : MempoolData) (chain : ChainReader) (o : OutPoint)
    → ((entry : MempoolTxEntry)
        → mempool.txs o.txid ≡ some entry
        → chain.tx_and_num_by_txid o.txid ≡ none)
    → ((utxo_state mempool chain o).state
        ≡ expected
            (num_outputs chain (mempool.txs o.txid) (chain.tx_and_num_by_txid o.txid))
            (is_spent_in_mempool mempool o
              || is_spent_in_chain chain o (chain.tx_and_num_by_txid o.txid))
            o.out_idx)
      × ((utxo_state mempool chain o).height
          ≡ expected_height (mempool.txs o.txid) (chain.tx_and_num_by_txid o.txid))
unfolding utxo_state
utxo_state-expected mempool chain o apart =
    joined-expected chain o (mempool.txs o.txid) (chain.tx_and_num_by_txid o.txid)
      (is_spent_in_mempool mempool o) apart
