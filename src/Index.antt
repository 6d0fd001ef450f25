-- ===== src/Index.antt =====
-- chronik-rocksdb/src/index.rs: from the hash of a key to the numbers under which the values with this
-- key are stored in another column.
pub mod Laws
pub mod Merges
use chronik.Prelude.{ℕ, Option, none, some, List, [], ◌∷◌, if◌then◌else◌}
use chronik.Std.Ord.{◌==◌, nat_ord}
use chronik.Std.HashMap.{HashMap}
use chronik.Chain.{Bytes}
use chronik.MergeOps.{prefix_insert, prefix_delete}

-- `Result<Option<_>>` of `get`, with the error `InconsistentDatabase`.
pub data Indexed (V : Type 0) : Type 0 where
  hit : ℕ → V → Indexed V
  miss inconsistent : Indexed V

-- `Indexable`, where `Serial`, `Key` and `Hash` are numbers; `as_bytes` gives the bytes of a `Serial`.
pub record Indexable (V : Type 0) : Type 0 where
  pub hash : ℕ → ℕ
  pub get_value_key : V → ℕ
  pub as_bytes : ℕ → Bytes

module _ {V : Type 0} (x : Indexable V) where
  unfoldable pub scan : (ℕ → Option V) → ℕ → List ℕ → Indexed V
  scan lookup key [] = miss
  scan lookup key (serial ∷ serials) =
      let rest = scan lookup key serials in
      elim (lookup serial) [
        | none ↦ inconsistent
        | some value ↦ if x.get_value_key value == key then hit serial value else rest
      ]

  -- `lookup` reads the column of values, `index` the column of numbers.
  unfoldable pub get : (ℕ → Option V) → HashMap ℕ (List ℕ) → ℕ → Indexed V
  unfolding scan
  get lookup index key = elim (index (x.hash key)) [
    | none ↦ miss
    | some serials ↦ scan lookup key serials
  ]

  -- The merge of a batch: a key of the column and an operand.
  abbrev pub merge_value : ℕ → ℕ → ℕ → ℕ × Bytes
  merge_value serial key flag = (x.hash key, flag ∷ x.as_bytes serial)

  abbrev pub insert : ℕ → V → ℕ × Bytes
  insert serial value = merge_value serial (x.get_value_key value) prefix_insert

  abbrev pub delete : ℕ → ℕ → ℕ × Bytes
  delete serial key = merge_value serial key prefix_delete
