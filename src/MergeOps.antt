-- ===== src/MergeOps.antt =====
-- chronik-rocksdb/src/merge_ops.rs: the merge operator of the columns whose values are ordered lists.
pub mod Laws
use chronik.Prelude.{ℕ, Option, none, some, List, [], ◌∷◌, nat_eq, if◌then◌else◌}
use chronik.Std.Ord.{Ord, ◌==◌, nat_ord}
use chronik.Std.HashMap.{unwrap_or}
use chronik.Std.SortedVec.{binary_search, insert_absent, remove_found}
use chronik.Chain.{Bytes}

-- `b'I'` and `b'D'`.
abbrev pub prefix_insert : ℕ
prefix_insert = 73

abbrev pub prefix_delete : ℕ
prefix_delete = 68

-- `interpret` reads the bytes of one entry; `none` is its error. The existing value is given as the
-- entries that `interpret_slice` reads. `none` as a result is a panic.
module _ {A : Type 0} ⦃o : Ord A⦄ (interpret : Bytes → Option A) where
  abbrev pub merge_entry : (A → List A) → Option A → Option (List A)
  merge_entry f none = none
  merge_entry f (some entry) = some (f entry)

  unfoldable pub merge_operand : Bytes → List A → Option (List A)
  merge_operand [] entries = none
  merge_operand (b ∷ bytes) entries =
      if nat_eq b prefix_insert
      then merge_entry (λ entry. insert_absent entry entries (binary_search entry entries))
          (interpret bytes)
      else if nat_eq b prefix_delete
      then merge_entry (λ entry. remove_found entries (binary_search entry entries))
          (interpret bytes)
      else none

  abbrev pub and_then : (List A → Option (List A)) → Option (List A) → Option (List A)
  and_then f none = none
  and_then f (some entries) = f entries

  -- `for operand in operands`
  unfoldable pub merge_operands : List Bytes → List A → Option (List A)
  merge_operands [] entries = some entries
  merge_operands (operand ∷ operands) entries =
      and_then (merge_operands operands) (merge_operand operand entries)

  unfoldable pub full_merge_ordered_list : Option (List A) → List Bytes → Option (List A)
  full_merge_ordered_list existing_value operands =
      merge_operands operands (unwrap_or existing_value [])

-- The operands of one key, in the order of the batch.
abbrev pub operands_at : ℕ → List (ℕ × Bytes) → List Bytes
operands_at key [] = []
operands_at key ((k, operand) ∷ batch) =
    if key == k then operand ∷ operands_at key batch else operands_at key batch
