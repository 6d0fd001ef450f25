-- ===== src/ScriptTxs/Laws.antt =====
-- Which numbers a script is given.
use chronik.Prelude.{
  ℕ, ◌+◌, ◌-◌, ◌≡◌, refl, ◌∙◌, ap, Bool, ◌||◌, ◌&&◌, List, [], ◌∷◌, any, enumerate, arith,
  any-append, zero, suc, false, concat_map, nat_eq, if◌then◌else◌,
}
use chronik.Std.Ord.{◌==◌, ==_iff, nat_ord, list_ord}
use chronik.Std.BTreeSet
use chronik.Std.BTreeSet.{contains, contains-insert}
use chronik.Std.HashMap
use chronik.Std.HashMap.{HashMap, unwrap_or}
use chronik.Chain.{Bytes, TxInput, TxOutput, UnhashedTx}
use chronik.ScriptPayload.{ScriptLib, payload_keys}
use chronik.Slp.{TxNum}
use chronik.ScriptTxs.{note_tx, input_keys, tx_keys, note_txs, prepare_tx_nums_by_payload}

abbrev pub in_keys : Bytes → List Bytes → Bool
in_keys q = any (λ key. q == key)

note_tx-contains :
    (n k : TxNum) (q : Bytes) (keys : List Bytes) (m : HashMap Bytes (List TxNum))
    → contains k (unwrap_or (note_tx n keys m q) [])
      ≡ ((k == n && in_keys q keys) || contains k (unwrap_or (m q) []))
unfolding note_tx
note_tx-contains n k q [] m = ground arith
note_tx-contains n k q (key ∷ keys) m =
    note_tx-contains n k q keys (HashMap.insert key (BTreeSet.insert n (unwrap_or (m key) [])) m)
    ∙ ground (arith, contains-insert n k (unwrap_or (m key) []), ==_iff q key)

-- Whether an output, or the output that an input spends, has a script with the payload.
module _ (lib : ScriptLib) (spent : ℕ → ℕ → TxOutput) (q : Bytes) where
  abbrev pub has_payload : TxOutput → Bool
  has_payload output = in_keys q (payload_keys lib output.script)

  -- The inputs from a number on, of the transaction at a position, which counts from the second one.
  abbrev pub spends_payload : ℕ → ℕ → List TxInput → Bool
  spends_payload tx_pos n [] = false
  spends_payload tx_pos n (input ∷ inputs) =
      has_payload (spent tx_pos n) || spends_payload tx_pos (n + 1) inputs

  spends_payload-keys :
      (tx_pos n : ℕ) (inputs : List TxInput)
      → in_keys q (concat_map (input_keys lib spent tx_pos) (enumerate n inputs))
        ≡ spends_payload tx_pos n inputs
  spends_payload-keys tx_pos n [] = refl
  spends_payload-keys tx_pos n (input ∷ inputs) =
      any-append (λ key. q == key) (payload_keys lib (spent tx_pos n).script)
        (concat_map (input_keys lib spent tx_pos) (enumerate (n + 1) inputs))
      ∙ ap (λ b. has_payload (spent tx_pos n) || b) (spends_payload-keys tx_pos (n + 1) inputs)

  pays-keys :
      (outputs : List TxOutput)
      → in_keys q (concat_map (λ output. payload_keys lib output.script) outputs)
        ≡ any has_payload outputs
  pays-keys [] = refl
  pays-keys (output ∷ outputs) =
      any-append (λ key. q == key) (payload_keys lib output.script)
        (concat_map (λ o. payload_keys lib o.script) outputs)
      ∙ ap (λ b. has_payload output || b) (pays-keys outputs)

  -- The first transaction of a block spends nothing.
  abbrev pub later_spends : ℕ → UnhashedTx → Bool
  later_spends zero tx = false
  later_spends (suc tx_pos) tx = spends_payload tx_pos 0 tx.inputs

  -- The transaction pays to the payload or spends from it.
  abbrev pub pays_or_spends : ℕ → UnhashedTx → Bool
  pays_or_spends tx_idx tx = any has_payload tx.outputs || later_spends tx_idx tx

  abbrev spent_keys : ℕ → UnhashedTx → List Bytes
  spent_keys tx_idx tx =
      if nat_eq tx_idx 0
      then []
      else concat_map (input_keys lib spent (tx_idx - 1)) (enumerate 0 tx.inputs)

  spent_keys-payload :
      (tx_idx : ℕ) (tx : UnhashedTx) → in_keys q (spent_keys tx_idx tx) ≡ later_spends tx_idx tx
  spent_keys-payload zero tx = refl
  spent_keys-payload (suc tx_pos) tx = rw (not_zero tx_pos) (
      ap (λ n. in_keys q (concat_map (input_keys lib spent n) (enumerate 0 tx.inputs)))
        (before tx_pos)
      ∙ spends_payload-keys tx_pos 0 tx.inputs)
    where
      not_zero : (n : ℕ) → nat_eq (suc n) 0 ≡ false
      not_zero n = ground arith

      before : (n : ℕ) → suc n - 1 ≡ n
      before n = omega arith

  tx_keys-payload :
      (tx_idx : ℕ) (tx : UnhashedTx)
      → in_keys q (tx_keys lib spent (tx_idx, tx)) ≡ pays_or_spends tx_idx tx
  tx_keys-payload tx_idx tx =
      any-append (λ key. q == key)
        (concat_map (λ output. payload_keys lib output.script) tx.outputs)
        (if nat_eq tx_idx 0
          then []
          else concat_map (input_keys lib spent (tx_idx - 1)) (enumerate 0 tx.inputs))
      ∙ ap (λ b. b || in_keys q (spent_keys tx_idx tx)) (pays-keys tx.outputs)
      ∙ ap (λ b. any has_payload tx.outputs || b) (spent_keys-payload tx_idx tx)

module _ (lib : ScriptLib) (spent : ℕ → ℕ → TxOutput) (first_tx_num : TxNum) (k : TxNum)
    (q : Bytes) where
  -- The transaction has the number and pays to the payload or spends from it.
  abbrev pub touches : ℕ × UnhashedTx → Bool
  touches item = k == first_tx_num + item.0 && pays_or_spends lib spent q item.0 item.1

  note_txs-contains :
      (items : List (ℕ × UnhashedTx)) (m : HashMap Bytes (List TxNum))
      → contains k (unwrap_or (note_txs lib spent first_tx_num items m q) [])
        ≡ (any touches items || contains k (unwrap_or (m q) []))
  unfolding note_txs
  note_txs-contains [] m = refl
  note_txs-contains (item ∷ items) m =
      note_txs-contains items (note_tx (first_tx_num + item.0) (tx_keys lib spent item) m)
      ∙ ground (
        arith,
        note_tx-contains (first_tx_num + item.0) k q (tx_keys lib spent item) m,
        tx_keys-payload lib spent q item.0 item.1,
      )

  -- The numbers of a block that are noted under a payload are exactly those of the transactions that pay
  -- to, or, but for the coinbase, spend from a script with this payload.
  pub prepare-contains :
      (txs : List UnhashedTx)
      → contains k (unwrap_or (prepare_tx_nums_by_payload lib spent first_tx_num txs q) [])
        ≡ any touches (enumerate 0 txs)
  unfolding prepare_tx_nums_by_payload contains
  prepare-contains txs = note_txs-contains (enumerate 0 txs) HashMap.empty ∙ ground arith
