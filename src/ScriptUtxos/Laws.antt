-- ===== src/ScriptUtxos/Laws.antt =====
-- What `utxos` returns when the database and the mempool are consistent.
use chronik.Prelude.{
  ℕ, Bool, true, false, Option, none, some, List, [], ◌∷◌, ◌++◌, map, All, ◌≡◌, refl, sym, ap, ◌∙◌,
  get_elem?, if◌then◌else◌, Bool-cases, inl, inr,
}
use chronik.Std.BTreeSet
use chronik.Std.HashMap.{unwrap_or}
use chronik.Chain.{OutPoint, outpoint_ord, TxOutput, UnhashedTx}
use chronik.ScriptPayload.{into_vec, ScriptLib, ScriptPayload, reconstruct_script}
use chronik.Slp.{SlpToken, SlpValidTxData}
use chronik.Txs.{BlockTx}
use chronik.Blocks.{Block}
use chronik.Utxos.{UtxoEntry}
use chronik.MempoolData.{UtxoDelta, MempoolData, MempoolTxEntry}
use chronik.ScriptUtxos.{
  ok, ◌>>=◌, UtxosReader, SlpOutput, RichUtxo, db_output, mempool_delta, rich_db_utxo, db_utxos,
  mempool_utxos, opt_slp_output, script_utxos,
}

-- An output of the database with what belongs to it: its transaction, block, output and SLP data.
pub record StoredOutput : Type 0 where
  pub utxo : UtxoEntry
  pub tx : BlockTx
  pub block : Block
  pub output : TxOutput
  pub slp : Option SlpValidTxData

-- An output that the mempool adds, with its transaction.
pub record PendingOutput : Type 0 where
  pub outpoint : OutPoint
  pub entry : MempoolTxEntry
  pub output : TxOutput

module _ {V : Type 0} (lib : ScriptLib) (mempool : MempoolData) (reader : UtxosReader V) where
  -- The output: of the transaction in the block file, if the payload tells only a part of the script, or
  -- else with the script of the payload and the stored value.
  abbrev pub HasOutput : Bool → ScriptPayload → StoredOutput → Type 0
  HasOutput true payload s =
      (tx : UnhashedTx) × (reader.raw_tx s.block.file_num s.tx.entry ≡ some tx)
      × (get_elem? tx.outputs s.utxo.outpoint.out_idx ≡ some s.output)
  HasOutput false payload s =
      (reconstruct_script lib payload ≡ some s.output.script) × (s.output.value ≡ s.utxo.value)

  -- The database has all this.
  pub record IsStored (payload : ScriptPayload) (s : StoredOutput) : Type 0 where
    pub has_tx : reader.by_tx_num s.utxo.outpoint.tx_num ≡ some s.tx
    pub has_block : reader.by_height s.tx.block_height ≡ some s.block
    pub has_output : HasOutput s.utxo.is_partial_script payload s
    pub has_slp : reader.slp_data_by_tx_num s.utxo.outpoint.tx_num ≡ some s.slp

  pub record IsPending (p : PendingOutput) : Type 0 where
    pub has_entry : mempool.txs p.outpoint.txid ≡ some p.entry
    pub has_output : get_elem? p.entry.tx.outputs p.outpoint.out_idx ≡ some p.output

  abbrev pub token_or_default : Option SlpToken → SlpToken
  token_or_default none = reader.default_token
  token_or_default (some token) = token

  -- The token of an output of an SLP transaction.
  abbrev pub token_of : Option SlpValidTxData → ℕ → Option (SlpOutput V)
  token_of none out_idx = none
  token_of (some v) out_idx = some (record {
    token_id = v.slp_tx_data.token_id;
    tx_type = reader.tx_type_variant v.slp_tx_data.slp_tx_type;
    token_type = v.slp_tx_data.slp_token_type;
    token = token_or_default (get_elem? v.slp_tx_data.output_tokens out_idx);
    group_token_id = v.slp_tx_data.group_token_id;
  })

  abbrev pub stored_outpoint : StoredOutput → OutPoint
  stored_outpoint s = record { txid = s.tx.entry.txid; out_idx = s.utxo.outpoint.out_idx }

  abbrev pub stored_utxo : StoredOutput → RichUtxo V
  stored_utxo s = record {
    outpoint = stored_outpoint s;
    block =
        some (record {
          height = s.tx.block_height;
          hash = s.block.hash;
          timestamp = s.block.timestamp;
        });
    is_coinbase = s.tx.entry.is_coinbase;
    output = s.output;
    slp_output = token_of s.slp s.utxo.outpoint.out_idx;
    time_first_seen = s.tx.entry.time_first_seen;
  }

  abbrev pub pending_utxo : PendingOutput → RichUtxo V
  pending_utxo p = record {
    outpoint = p.outpoint;
    block = none;
    is_coinbase = false;
    output = p.output;
    slp_output = token_of (reader.mempool_slp p.outpoint.txid) p.outpoint.out_idx;
    time_first_seen = p.entry.time_first_seen;
  }

  -- Those of the database that the mempool does not spend.
  abbrev pub unspent : List OutPoint → List StoredOutput → List (RichUtxo V)
  unspent deletes [] = []
  unspent deletes (s ∷ ss) =
      if BTreeSet.contains (stored_outpoint s) deletes
      then unspent deletes ss
      else stored_utxo s ∷ unspent deletes ss

  same_token : (o : Option SlpToken) → unwrap_or o reader.default_token ≡ token_or_default o
  same_token none = refl
  same_token (some token) = refl

  token_of_lem :
      (slp : Option SlpValidTxData) (out_idx : ℕ)
      → opt_slp_output lib mempool reader slp out_idx ≡ token_of slp out_idx
  token_of_lem none out_idx = refl
  token_of_lem (some v) out_idx =
      ap
        (λ token. some (record {
          token_id = v.slp_tx_data.token_id;
          tx_type = reader.tx_type_variant v.slp_tx_data.slp_tx_type;
          token_type = v.slp_tx_data.slp_token_type;
          token = token;
          group_token_id = v.slp_tx_data.group_token_id;
        }))
        (same_token (get_elem? v.slp_tx_data.output_tokens out_idx))

  db_output-stored :
      (payload : ScriptPayload) (s : StoredOutput) (b : Bool)
      → HasOutput b payload s
      → db_output lib mempool reader payload
          (record s.utxo { is_partial_script = b })
          (stored_outpoint s)
          s.tx.entry
          s.block
        ≡ ok s.output
  db_output-stored payload s true (tx, raw, at) = rw (raw, at)
  db_output-stored payload s false (script, value) =
      rw script (ap (λ v. ok (record { value = v; script = s.output.script })) (sym value))

  rich_db_utxo-stored :
      (payload : ScriptPayload) (s : StoredOutput)
      → IsStored payload s
      → rich_db_utxo lib mempool reader payload s.utxo s.tx ≡ ok (stored_utxo s)
  rich_db_utxo-stored payload s is =
      rw
        (
          is.has_block,
          db_output-stored payload s s.utxo.is_partial_script is.has_output,
          is.has_slp,
        )
        (ap (λ t. ok (record (stored_utxo s) { slp_output = t }))
          (token_of_lem s.slp s.utxo.outpoint.out_idx))

  db_utxos-unspent :
      (payload : ScriptPayload) (ss : List StoredOutput)
      → All (IsStored payload) ss
      → db_utxos lib mempool reader payload (map (λ s. s.utxo) ss)
        ≡ ok (unspent (mempool_delta lib mempool reader payload).deletes ss)
  unfolding db_utxos
  db_utxos-unspent payload [] all = refl
  db_utxos-unspent payload (s ∷ ss) (is, all) =
      rw (is.has_tx)
        (elim (Bool-cases (
          BTreeSet.contains (stored_outpoint s)
            (mempool_delta lib mempool reader payload).deletes)) [
              | inl spent ↦ rw spent (db_utxos-unspent payload ss all)
              | inr free ↦
                  rw (free, rich_db_utxo-stored payload s is, db_utxos-unspent payload ss all) refl
            ])

  mempool_utxos-pending :
      (ps : List PendingOutput)
      → All IsPending ps
      → mempool_utxos lib mempool reader (map (λ p. p.outpoint) ps) ≡ ok (map pending_utxo ps)
  unfolding mempool_utxos
  mempool_utxos-pending [] all = refl
  mempool_utxos-pending (p ∷ ps) (is, all) =
      rw (is.has_entry, is.has_output, mempool_utxos-pending ps all)
        (ap (λ t. ok (record (pending_utxo p) { slp_output = t } ∷ map pending_utxo ps))
          (token_of_lem (reader.mempool_slp p.outpoint.txid) p.outpoint.out_idx))

  with_delta :
      (payload : ScriptPayload) (ss : List StoredOutput) (ps : List PendingOutput)
      → map (λ s. s.utxo) ss ≡ reader.utxos payload
      → map (λ p. p.outpoint) ps ≡ (mempool_delta lib mempool reader payload).inserts
      → All (IsStored payload) ss
      → All IsPending ps
      → script_utxos lib mempool reader payload
        ≡ ok (unspent (mempool_delta lib mempool reader payload).deletes ss ++ map pending_utxo ps)
  unfolding script_utxos
  with_delta payload ss ps listed added stored pending =
      ap
        (λ us. db_utxos lib mempool reader payload us >>= λ utxos.
          mempool_utxos lib mempool reader (mempool_delta lib mempool reader payload).inserts
          >>= λ more. ok (utxos ++ more))
        (sym listed)
      ∙ ap
          (λ os. db_utxos lib mempool reader payload (map (λ s. s.utxo) ss) >>= λ utxos.
            mempool_utxos lib mempool reader os >>= λ more. ok (utxos ++ more))
          (sym added)
      ∙ rw (db_utxos-unspent payload ss stored, mempool_utxos-pending ps pending)

  -- The delta that the mempool has for the script, empty where it has none.
  abbrev pub delta_or_empty : Option UtxoDelta → UtxoDelta
  delta_or_empty none = record { inserts = []; deletes = [] }
  delta_or_empty (some delta) = delta

  same_delta :
      (o : Option UtxoDelta)
      → unwrap_or o (record { inserts = []; deletes = [] }) ≡ delta_or_empty o
  same_delta none = refl
  same_delta (some delta) = refl

  -- If the database has, for every output of the script that it lists, the transaction, the block, the
  -- output and the SLP data, and the mempool has the transactions and outputs that it adds, then the
  -- unspent outputs of the script are returned: those of the database that the mempool does not spend,
  -- in order, and then those that the mempool adds, each with its outpoint, block, output, token and
  -- time.
  pub script_utxos-unspent :
      (payload : ScriptPayload) (ss : List StoredOutput) (ps : List PendingOutput)
      → map (λ s. s.utxo) ss ≡ reader.utxos payload
      → map (λ p. p.outpoint) ps ≡ (delta_or_empty (mempool.utxos (into_vec payload))).inserts
      → All (IsStored payload) ss
      → All IsPending ps
      → script_utxos lib mempool reader payload
        ≡ ok (
            unspent (delta_or_empty (mempool.utxos (into_vec payload))).deletes ss
            ++ map pending_utxo ps)
  script_utxos-unspent payload ss ps listed added stored pending =
      let same = same_delta (mempool.utxos (into_vec payload)) in
      with_delta payload ss ps listed (added ∙ ap (λ d. d.inserts) (sym same)) stored pending
      ∙ ap (λ d. ok (unspent d.deletes ss ++ map pending_utxo ps)) same
