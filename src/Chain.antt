-- ===== src/Chain.antt =====
-- The transaction types that the crates take from `bitcoinsuite_core`, with the fields that they use.
-- A hash is the number that its bytes spell; a script is its bytecode.
use chronik.Prelude.{ℕ, ℤ, ◌≡◌, List}
use chronik.Std.Ord.{Ord, nat_ord, pair_ord, int_ord, cmp_fields, cmp_fields-Laws}

abbrev pub Bytes : Type 0
Bytes = List ℕ

abbrev pub Sha256d : Type 0
Sha256d = ℕ

abbrev pub Script : Type 0
Script = Bytes

pub record OutPoint : Type 0 where
  pub txid : Sha256d
  pub out_idx : ℕ

abbrev pub outpoint_fields : OutPoint → ℕ × ℕ
outpoint_fields o = (o.txid, o.out_idx)

pub outpoint_injective : (x y : OutPoint) → outpoint_fields x ≡ outpoint_fields y → x ≡ y
outpoint_injective x y h = λ i. record { txid = (h i).0; out_idx = (h i).1 }

instance unfoldable pub outpoint_ord : Ord OutPoint
unfolding pair_ord nat_ord
outpoint_ord = record {
  cmp = cmp_fields outpoint_fields;
  laws = cmp_fields-Laws outpoint_fields outpoint_injective;
}

pub record TxInput : Type 0 where
  pub prev_out : OutPoint

pub record TxOutput : Type 0 where
  pub value : ℤ
  pub script : Script

pub record UnhashedTx : Type 0 where
  pub inputs : List TxInput
  pub outputs : List TxOutput

pub record Coin : Type 0 where
  pub tx_output : TxOutput
