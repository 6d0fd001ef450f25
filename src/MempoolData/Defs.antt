-- ===== src/MempoolData/Defs.antt =====
-- `MempoolData`, its errors, and the updates of one map. A method returns the state that it leaves
-- behind also when it fails, since Rust keeps what was written before the error.
use chronik.Prelude.{
  ℕ, ℤ, Bool, true, false, Option, none, some, List, [], ◌∷◌, ◌&&◌, if◌then◌else◌,
}
use chronik.Std.Ord.{nat_ord, int_ord, list_ord, pair_ord}
use chronik.Std.BTreeSet
use chronik.Std.BTreeSet.{is_empty}
use chronik.Std.HashMap
use chronik.Std.HashMap.{HashMap, unwrap_or}
use chronik.Chain.{Bytes, Sha256d, OutPoint, outpoint_ord, UnhashedTx, Coin}
use chronik.ScriptPayload.{ScriptPayload, into_vec}
pub use chronik.Prelude.{enumerate, zip}

pub record MempoolTxEntry : Type 0 where
  pub tx : UnhashedTx
  pub spent_coins : List Coin
  pub time_first_seen : ℤ

pub record UtxoDelta : Type 0 where
  pub inserts : List OutPoint
  pub deletes : List OutPoint

-- `(u32, Sha256d, u32)`: the output that is spent, the spender, and its input.
abbrev pub Spend : Type 0
Spend = ℕ × (Sha256d × ℕ)

abbrev pub TimedTx : Type 0
TimedTx = ℤ × Sha256d

pub record MempoolData : Type 0 where
  pub txs : HashMap Sha256d MempoolTxEntry
  pub script_txs : HashMap Bytes (List TimedTx)
  pub utxos : HashMap Bytes UtxoDelta
  pub spends : HashMap Sha256d (List Spend)

pub data MempoolDeleteMode : Type 0 where
  remove mined : MempoolDeleteMode

pub data MempoolDataError : Type 0 where
  no_such_tx duplicate_tx : Sha256d → MempoolDataError
  duplicate_utxo utxo_already_spent output_already_spent : OutPoint → MempoolDataError
  utxo_already_unspent output_already_unspent utxo_doesnt_exist : OutPoint → MempoolDataError

pub data Outcome {ℓ} (A : Type ℓ) : Type ℓ where
  ok : A → MempoolData → Outcome A
  err : MempoolDataError → MempoolData → Outcome A

abbrev pub M : Type 0 → Type 0
M A = MempoolData → Outcome A

infixl 5 ◌>>=◌ ◌>>◌
abbrev pub ◌>>=◌ : {A B : Type 0} → M A → (A → M B) → M B
◌>>=◌ m f s = elim (m s) [ ok a s' ↦ f a s' | err e s' ↦ err e s' ]

abbrev pub ◌>>◌ : {B : Type 0} → M (Unit {0}) → M B → M B
m >> k = m >>= λ _. k

-- A write, after which the method fails if the test says so.
abbrev pub fail_if : Bool → MempoolDataError → MempoolData → Outcome (Unit {0})
fail_if true e s = err e s
fail_if false e s = ok tt s

unfoldable pub for_each : {X : Type 0} → (X → M (Unit {0})) → List X → M (Unit {0})
for_each f [] s = ok tt s
for_each f (x ∷ xs) s = elim (f x s) [ ok _ s' ↦ for_each f xs s' | err e s' ↦ err e s' ]

abbrev pub no_delta : UtxoDelta
no_delta = record { inserts = []; deletes = [] }

abbrev pub delta_of : MempoolData → Bytes → UtxoDelta
delta_of s key = unwrap_or (s.utxos key) no_delta

abbrev pub set_delta : Bytes → UtxoDelta → MempoolData → MempoolData
set_delta key d s = record s { utxos = HashMap.insert key d s.utxos }

-- An entry that has become empty is removed.
abbrev pub tidy_delta : Bytes → UtxoDelta → MempoolData → MempoolData
tidy_delta key d s =
    if is_empty d.inserts && is_empty d.deletes
    then record s { utxos = HashMap.remove key s.utxos }
    else set_delta key d s

abbrev pub add_script_tx : TimedTx → Bytes → MempoolData → MempoolData
add_script_tx e key s = record s {
  script_txs =
      HashMap.insert key (BTreeSet.insert e (unwrap_or (s.script_txs key) [])) s.script_txs;
}

abbrev pub remove_script_tx : TimedTx → Bytes → MempoolData → MempoolData
remove_script_tx e key s = elim (s.script_txs key) [
  | none ↦ s
  | some txs ↦
      let rest = BTreeSet.remove e txs in
      record s {
        script_txs =
            if is_empty rest
            then HashMap.remove key s.script_txs
            else HashMap.insert key rest s.script_txs;
      }
]

-- Getters.
unfoldable pub tx : MempoolData → Sha256d → Option MempoolTxEntry
tx s txid = s.txs txid

unfoldable pub script_txs : MempoolData → ScriptPayload → Option (List TimedTx)
script_txs s p = s.script_txs (into_vec p)

unfoldable pub utxos : MempoolData → ScriptPayload → Option UtxoDelta
utxos s p = s.utxos (into_vec p)

unfoldable pub spends : MempoolData → Sha256d → Option (List Spend)
spends s txid = s.spends txid
