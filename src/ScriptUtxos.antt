-- ===== src/ScriptUtxos.antt =====
-- chronik-indexer/src/utxos.rs: `utxos`, the unspent outputs of a script, those of the database that
-- the mempool does not spend and those that the mempool adds.
pub mod Laws
use chronik.Prelude.{
  ℕ, ℤ, Bool, true, false, Option, none, some, List, [], ◌∷◌, ◌++◌, get_elem?, if◌then◌else◌,
}
use chronik.Std.BTreeSet
use chronik.Std.HashMap.{HashMap, unwrap_or}
use chronik.Chain.{Sha256d, OutPoint, outpoint_ord, TxOutput, UnhashedTx}
use chronik.ScriptPayload.{ScriptLib, ScriptPayload, reconstruct_script, into_vec}
use chronik.Slp.{TxNum, TokenId, SlpToken, SlpTxType, SlpTxData, SlpValidTxData}
use chronik.Txs.{BlockHeight, TxEntry, BlockTx}
use chronik.Blocks.{Block}
use chronik.Utxos.{UtxoEntry}
use chronik.MempoolData.{MempoolData, MempoolTxEntry, UtxoDelta}

-- `Result`, with the errors of `UtxosError`, one of what is called, and a panic.
pub data UtxosResult (A : Type 0) : Type 0 where
  ok : A → UtxosResult A
  inconsistent_no_such_tx_num : TxNum → UtxosResult A
  inconsistent_no_such_mempool_tx : Sha256d → UtxosResult A
  couldnt_reconstruct_script : OutPoint → UtxosResult A
  failed panicked : UtxosResult A

infixl 5 ◌>>=◌
abbrev pub ◌>>=◌ : {A B : Type 0} → UtxosResult A → (A → UtxosResult B) → UtxosResult B
ok a >>= f = f a
inconsistent_no_such_tx_num n >>= f = inconsistent_no_such_tx_num n
inconsistent_no_such_mempool_tx txid >>= f = inconsistent_no_such_mempool_tx txid
couldnt_reconstruct_script o >>= f = couldnt_reconstruct_script o
failed >>= f = failed
panicked >>= f = panicked

abbrev pub ok_or : {A : Type 0} → UtxosResult A → Option A → UtxosResult A
ok_or e none = e
ok_or e (some a) = ok a

-- `SlpOutput`, where `V` is the type of `tx_type_variant()`.
pub record SlpOutput (V : Type 0) : Type 0 where
  pub token_id : TokenId
  pub tx_type : V
  pub token_type : ℕ
  pub token : SlpToken
  pub group_token_id : Option TokenId

pub record RichTxBlock : Type 0 where
  pub height : BlockHeight
  pub hash : Sha256d
  pub timestamp : ℤ

-- `RichUtxo`, without the network, which is the indexer's.
pub record RichUtxo (V : Type 0) : Type 0 where
  pub outpoint : OutPoint
  pub block : Option RichTxBlock
  pub is_coinbase : Bool
  pub output : TxOutput
  pub slp_output : Option (SlpOutput V)
  pub time_first_seen : ℤ

-- What is read: of the database, through `TxReader`, `BlockReader` and `SlpReader`, where `none` of the
-- last is a failure; `raw_tx`, the transaction in a block file, which the node gives and
-- `bitcoinsuite_core` parses, where `none` is a failure; the mempool's SLP data; and of
-- `bitcoinsuite_slp` the variant of a type and the default token.
pub record UtxosReader (V : Type 0) : Type 0 where
  pub utxos : ScriptPayload → List UtxoEntry
  pub by_tx_num : TxNum → Option BlockTx
  pub by_height : BlockHeight → Option Block
  pub slp_data_by_tx_num : TxNum → Option (Option SlpValidTxData)
  pub raw_tx : ℕ → TxEntry → Option UnhashedTx
  pub mempool_slp : HashMap Sha256d SlpValidTxData
  pub tx_type_variant : SlpTxType → V
  pub default_token : SlpToken

module _ {V : Type 0} (lib : ScriptLib) (mempool : MempoolData) (reader : UtxosReader V) where
  abbrev pub slp_output_of : SlpTxData → ℕ → SlpOutput V
  slp_output_of slp out_idx = record {
    token_id = slp.token_id;
    tx_type = reader.tx_type_variant slp.slp_tx_type;
    token_type = slp.slp_token_type;
    token = unwrap_or (get_elem? slp.output_tokens out_idx) reader.default_token;
    group_token_id = slp.group_token_id;
  }

  abbrev pub opt_slp_output : Option SlpValidTxData → ℕ → Option (SlpOutput V)
  opt_slp_output none out_idx = none
  opt_slp_output (some slp) out_idx = some (slp_output_of slp.slp_tx_data out_idx)

  -- `tx.outputs[out_idx]`
  abbrev pub output_at : UnhashedTx → ℕ → UtxosResult TxOutput
  output_at tx out_idx = ok_or panicked (get_elem? tx.outputs out_idx)

  abbrev pub db_output :
      ScriptPayload → UtxoEntry → OutPoint → TxEntry → Block → UtxosResult TxOutput
  db_output payload utxo outpoint entry block =
      if utxo.is_partial_script
      then (do
        tx ← ok_or failed (reader.raw_tx block.file_num entry)
        output_at tx outpoint.out_idx)
      else (do
        script ← ok_or (couldnt_reconstruct_script outpoint) (reconstruct_script lib payload)
        ok (record { value = utxo.value; script = script }))

  abbrev pub utxo_outpoint : UtxoEntry → BlockTx → OutPoint
  utxo_outpoint utxo block_tx = record {
    txid = block_tx.entry.txid;
    out_idx = utxo.outpoint.out_idx;
  }

  abbrev pub mempool_delta : ScriptPayload → UtxoDelta
  mempool_delta payload =
      unwrap_or (mempool.utxos (into_vec payload)) (record { inserts = []; deletes = [] })

  abbrev pub db_rich_utxo :
      UtxoEntry → BlockTx → Block → TxOutput → Option SlpValidTxData → RichUtxo V
  db_rich_utxo utxo block_tx block output slp = record {
    outpoint = utxo_outpoint utxo block_tx;
    block =
        some (record {
          height = block_tx.block_height;
          hash = block.hash;
          timestamp = block.timestamp;
        });
    is_coinbase = block_tx.entry.is_coinbase;
    output = output;
    slp_output = opt_slp_output slp utxo.outpoint.out_idx;
    time_first_seen = block_tx.entry.time_first_seen;
  }

  abbrev pub rich_db_utxo : ScriptPayload → UtxoEntry → BlockTx → UtxosResult (RichUtxo V)
  rich_db_utxo payload utxo block_tx = do
    block ← ok_or panicked (reader.by_height block_tx.block_height)
    output ← db_output payload utxo (utxo_outpoint utxo block_tx) block_tx.entry block
    slp ← ok_or failed (reader.slp_data_by_tx_num utxo.outpoint.tx_num)
    ok (db_rich_utxo utxo block_tx block output slp)

  -- The outputs of the database that the mempool does not spend; which of several errors is reported is
  -- the parallel iterator's choice, here the first.
  unfoldable pub db_utxos : ScriptPayload → List UtxoEntry → UtxosResult (List (RichUtxo V))
  db_utxos payload [] = ok []
  db_utxos payload (utxo ∷ utxos) = do
    block_tx ←
        ok_or (inconsistent_no_such_tx_num utxo.outpoint.tx_num)
          (reader.by_tx_num utxo.outpoint.tx_num)
    let rest = db_utxos payload utxos
    if BTreeSet.contains (utxo_outpoint utxo block_tx) (mempool_delta payload).deletes
        then rest
        else (do rich ← rich_db_utxo payload utxo block_tx; riches ← rest; ok (rich ∷ riches))

  abbrev pub mempool_rich_utxo : OutPoint → MempoolTxEntry → TxOutput → RichUtxo V
  mempool_rich_utxo outpoint entry output = record {
    outpoint = outpoint;
    block = none;
    is_coinbase = false;
    output = output;
    slp_output = opt_slp_output (reader.mempool_slp outpoint.txid) outpoint.out_idx;
    time_first_seen = entry.time_first_seen;
  }

  abbrev pub rich_mempool_utxo : OutPoint → UtxosResult (RichUtxo V)
  rich_mempool_utxo outpoint = do
    entry ← ok_or (inconsistent_no_such_mempool_tx outpoint.txid) (mempool.txs outpoint.txid)
    output ← output_at entry.tx outpoint.out_idx
    ok (mempool_rich_utxo outpoint entry output)

  unfoldable pub mempool_utxos : List OutPoint → UtxosResult (List (RichUtxo V))
  mempool_utxos [] = ok []
  mempool_utxos (outpoint ∷ outpoints) = do
    rich ← rich_mempool_utxo outpoint
    riches ← mempool_utxos outpoints
    ok (rich ∷ riches)

  unfoldable pub script_utxos : ScriptPayload → UtxosResult (List (RichUtxo V))
  unfolding db_utxos mempool_utxos
  script_utxos payload = do
    utxos ← db_utxos payload (reader.utxos payload)
    added ← mempool_utxos (mempool_delta payload).inserts
    ok (utxos ++ added)
