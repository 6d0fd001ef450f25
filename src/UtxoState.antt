-- ===== src/UtxoState.antt =====
-- chronik-indexer/src/utxos.rs: `utxo_state`, which joins the mempool and the database.
pub mod Laws
use chronik.Prelude.{
  ℕ, Bool, true, false, Option, none, some, List, [], any, length, leb, nat_eq, if◌then◌else◌,
}
use chronik.Std.HashMap.{unwrap_or}
use chronik.Chain.{Sha256d, OutPoint, UnhashedTx}
use chronik.Slp.{TxNum}
use chronik.MempoolData.{MempoolData, MempoolTxEntry}
use chronik.Spends.{SpendData}
use chronik.Txs.{BlockHeight, BlockTx}

pub data UtxoStateVariant : Type 0 where
  unspent spent no_such_tx no_such_output : UtxoStateVariant

pub record UtxoState : Type 0 where
  pub height : Option BlockHeight
  pub state : UtxoStateVariant

-- What is read of the database through `TxReader` and `SpendsReader`, and `raw_tx`, the transaction in
-- the block file, which the node gives and `bitcoinsuite_core` parses.
pub record ChainReader : Type 0 where
  pub tx_and_num_by_txid : Sha256d → Option (TxNum × BlockTx)
  pub spends_by_tx_num : TxNum → List SpendData
  pub raw_tx : BlockTx → UnhashedTx

abbrev pub is_spent_in_mempool : MempoolData → OutPoint → Bool
is_spent_in_mempool mempool o =
    any (λ s. nat_eq s.0 o.out_idx) (unwrap_or (mempool.spends o.txid) [])

-- The early returns on what the mempool has; the flag is `is_spent_in_mempool`.
abbrev pub mempool_state : Bool → Option MempoolTxEntry → OutPoint → Option UtxoState
mempool_state true (some entry) o = some (record { height = none; state = spent })
mempool_state true none o = none
mempool_state false none o = none
mempool_state false (some entry) o = some (
    if leb (length entry.tx.outputs) o.out_idx
    then record { height = none; state = no_such_output }
    else record { height = none; state = unspent })

abbrev pub chain_state : ChainReader → Bool → OutPoint → Option (TxNum × BlockTx) → UtxoState
chain_state chain in_mempool o none = record { height = none; state = no_such_tx }
chain_state chain true o (some (tx_num, block_tx)) = record {
  height = some block_tx.block_height;
  state = spent;
}
chain_state chain false o (some (tx_num, block_tx)) = record {
  height = some block_tx.block_height;
  state =
      if any (λ s. nat_eq s.out_idx o.out_idx) (chain.spends_by_tx_num tx_num)
      then spent
      else if leb (length (chain.raw_tx block_tx).outputs) o.out_idx
      then no_such_output
      else unspent;
}

unfoldable pub utxo_state : MempoolData → ChainReader → OutPoint → UtxoState
utxo_state mempool chain o =
    let in_mempool = is_spent_in_mempool mempool o in
    elim (mempool_state in_mempool (mempool.txs o.txid) o) [
      | some state ↦ state
      | none ↦ chain_state chain in_mempool o (chain.tx_and_num_by_txid o.txid)
    ]
