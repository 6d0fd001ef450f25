-- ===== src/Utxos/Resolved.antt =====
-- The numbers that are fetched for a block's inputs are those that its disconnection finds.
use chronik.Prelude.{
  ℕ, ◌+◌, ◌≡◌, refl, sym, ap, ◌∙◌, Option, none, some, List, [], ◌∷◌, ◌++◌, map, arith, enumerate,
  zip, concat_map, tail, map-append, concat_map-append,
}
use chronik.Std.HashMap.{HashMap}
use chronik.Chain.{Bytes, Sha256d, TxInput, TxOutput, UnhashedTx}
use chronik.ScriptPayload.{ScriptLib, ScriptPayloadState, into_vec, script_payloads}
use chronik.Slp.{TxNum}
use chronik.SlpBatch.{OutpointEntry}
use chronik.InputTxNums.{
  Fetched, fetched, unknown_input_spent, fetch_input, fetch_tx, fetch_inputs, fetch_txs,
  fetch_input_tx_nums, tx_num_of,
}
use chronik.Utxos.Defs.{UtxoEntry, UtxoData, input_outpoints, tx_inputs, block_inputs}
use chronik.Utxos.Delete.{placed_inputs}
use chronik.Utxos.DeleteLaws.{restored_from, restored_entries, block_restored}

fetch_input-fetched :
    (input : TxInput) (r : Option TxNum) (rest : Fetched (List TxNum)) (nums : List TxNum)
    → fetch_input input r rest ≡ fetched nums
    → (n : TxNum) × (ns : List TxNum) × (r ≡ some n) × (rest ≡ fetched ns) × (nums ≡ n ∷ ns)
fetch_input-fetched input (some n) (fetched ns) nums h = (n, ns, refl, refl, ground (arith, h))
fetch_input-fetched input (some n) (unknown_input_spent i) nums h = ground (arith, h)
fetch_input-fetched input none rest nums h = ground (arith, h)

fetch_tx-fetched :
    (r : Fetched (List TxNum)) (rest : Fetched (List (List TxNum))) (nums : List (List TxNum))
    → fetch_tx r rest ≡ fetched nums
    → (n : List TxNum) × (ns : List (List TxNum)) × (r ≡ fetched n)
      × (rest ≡ fetched ns)
      × (nums ≡ n ∷ ns)
fetch_tx-fetched (fetched n) (fetched ns) nums h = (n, ns, refl, refl, ground (arith, h))
fetch_tx-fetched (fetched n) (unknown_input_spent i) nums h = ground (arith, h)
fetch_tx-fetched (unknown_input_spent i) rest nums h = ground (arith, h)

-- The outpoints of entries, under the same keys.
abbrev pub outpoint_items : List (Bytes × UtxoEntry) → List (Bytes × OutpointEntry)
outpoint_items = map (λ item. (item.0, item.1.outpoint))

module _ (lib : ScriptLib) (db : HashMap Bytes (List UtxoData)) (num_of : Sha256d → Option TxNum)
    (spent : ℕ → ℕ → TxOutput) where
  one_input :
      (tx_pos input_idx : ℕ) (input : TxInput) (n : TxNum) (sts : List ScriptPayloadState)
      → map
          (λ st. (into_vec st.payload, record { tx_num = n; out_idx = input.prev_out.out_idx }))
          sts
        ≡ outpoint_items (
            map
              (λ st. (
                into_vec st.payload,
                record {
                  outpoint = record { tx_num = n; out_idx = input.prev_out.out_idx };
                  value = (spent tx_pos input_idx).value;
                  is_partial_script = st.is_partial;
                },
              ))
              sts)
  one_input tx_pos input_idx input n [] = refl
  one_input tx_pos input_idx input n (st ∷ sts) =
      ap (λ r. (into_vec st.payload, record { tx_num = n; out_idx = input.prev_out.out_idx }) ∷ r)
        (one_input tx_pos input_idx input n sts)

  inputs-restored :
      (tx_pos i : ℕ) (inputs : List TxInput) (nums : List TxNum)
      → fetch_inputs num_of inputs ≡ fetched nums
      → concat_map (input_outpoints lib spent tx_pos) (enumerate i (zip inputs nums))
        ≡ outpoint_items (
            concat_map
              (restored_entries lib db num_of spent)
              (map (λ item. (tx_pos, item)) (enumerate i inputs)))
  inputs-restored tx_pos i [] nums h = refl
  inputs-restored tx_pos i (input ∷ inputs) nums h =
      let (n, ns, number, others, e) =
        fetch_input-fetched input (num_of input.prev_out.txid) (fetch_inputs num_of inputs) nums
          h in
      let rest =
        concat_map (restored_entries lib db num_of spent)
          (map (λ item. (tx_pos, item)) (enumerate (i + 1) inputs)) in
      ap
        (λ ks.
          concat_map (input_outpoints lib spent tx_pos) (enumerate i (zip (input ∷ inputs) ks)))
        e
      ∙ ap (λ r. input_outpoints lib spent tx_pos (i, (input, n)) ++ r)
          (inputs-restored tx_pos (i + 1) inputs ns others)
      ∙ ap (λ r. r ++ outpoint_items rest)
          (one_input tx_pos i input n (script_payloads lib (spent tx_pos i).script)
            ∙ ap (λ r. outpoint_items (restored_from lib db num_of spent (tx_pos, (i, input)) r))
                (sym number))
      ∙ sym (
          map-append (λ item. (item.0, item.1.outpoint))
            (restored_entries lib db num_of spent (tx_pos, (i, input))) rest)

  txs-restored :
      (i : ℕ) (txs : List UnhashedTx) (nums : List (List TxNum))
      → fetch_txs num_of txs ≡ fetched nums
      → concat_map (tx_inputs lib spent) (enumerate i (zip txs nums))
        ≡ outpoint_items (
            concat_map
              (restored_entries lib db num_of spent)
              (concat_map placed_inputs (enumerate i txs)))
  txs-restored i [] nums h = refl
  txs-restored i (tx ∷ txs) nums h =
      let (n, ns, first, others, e) =
        fetch_tx-fetched (fetch_inputs num_of tx.inputs) (fetch_txs num_of txs) nums h in
      let restore = concat_map (restored_entries lib db num_of spent) in
      let rest = concat_map placed_inputs (enumerate (i + 1) txs) in
      ap (λ ks. concat_map (tx_inputs lib spent) (enumerate i (zip (tx ∷ txs) ks))) e
      ∙ ap (λ r. tx_inputs lib spent (i, (tx, n)) ++ r) (txs-restored (i + 1) txs ns others)
      ∙ ap (λ r. r ++ outpoint_items (restore rest)) (inputs-restored i 0 tx.inputs n first)
      ∙ sym (
          map-append (λ item. (item.0, item.1.outpoint)) (restore (placed_inputs (i, tx)))
            (restore rest))
      ∙ ap outpoint_items (
          sym
            (concat_map-append (restored_entries lib db num_of spent) (placed_inputs (i, tx)) rest))

-- Where the numbers are fetched, the inputs that a connected block takes away are those that its
-- disconnection puts back.
pub block_inputs-block_restored :
    (lib : ScriptLib) (db : HashMap Bytes (List UtxoData)) (first_tx_num : TxNum)
    (txid : ℕ → Sha256d) (tx_num_by_txid : Sha256d → Option TxNum) (txs : List UnhashedTx)
    (spent : ℕ → ℕ → TxOutput) (input_tx_nums : List (List TxNum))
    → fetch_input_tx_nums first_tx_num txid tx_num_by_txid txs ≡ fetched input_tx_nums
    → block_inputs lib spent txs input_tx_nums
      ≡ outpoint_items (block_restored lib db first_tx_num txid tx_num_by_txid txs spent)
unfolding fetch_input_tx_nums block_inputs
block_inputs-block_restored lib db first_tx_num txid tx_num_by_txid txs spent input_tx_nums h =
    txs-restored lib db (tx_num_of first_tx_num txid tx_num_by_txid txs) spent 0 (tail txs)
      input_tx_nums h
