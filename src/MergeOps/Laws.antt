-- ===== src/MergeOps/Laws.antt =====
-- What a merge leaves in the list, and when it succeeds.
use chronik.Prelude.{
  ◌≡◌, ◌≢◌, refl, ap, subst, ◌∙◌, Bool, true, false, ◌&&◌, ◌||◌, Option, none, some, List, [], ◌∷◌,
  nat_eq, arith, if◌then◌else◌,
}
use chronik.Std.Ord.{Ord, ◌==◌}
use chronik.Std.BTreeSet.{contains}
use chronik.Std.HashMap.{unwrap_or, is_some}
use chronik.Std.SortedVec.{
  IsSorted, insert_absent-IsSorted, remove_found-IsSorted, contains-insert_absent,
  contains-remove_found, binary_search, insert_absent, remove_found,
}
use chronik.Chain.{Bytes}
use chronik.MergeOps.{
  prefix_insert, prefix_delete, merge_entry, and_then, merge_operand, merge_operands,
  full_merge_ordered_list,
}

none_not_some : {A : Type 0} {a : A} → none ≢ some a
none_not_some = λ h. cc

module _ {A : Type 0} ⦃o : Ord A⦄ (interpret : Bytes → Option A) where
  -- The operand is one for this entry.
  abbrev pub names : A → Bytes → Bool
  names e [] = false
  names e (b ∷ bytes) = elim (interpret bytes) [ none ↦ false | some entry ↦ e == entry ]

  abbrev pub is_insert : Bytes → Bool
  is_insert [] = false
  is_insert (b ∷ bytes) = nat_eq b prefix_insert

  -- An operand that can be read: an insertion or a deletion of an entry.
  abbrev pub well_formed : Bytes → Bool
  well_formed [] = false
  well_formed (b ∷ bytes) =
      (nat_eq b prefix_insert || nat_eq b prefix_delete) && is_some (interpret bytes)

  abbrev pub all_well_formed : List Bytes → Bool
  all_well_formed [] = true
  all_well_formed (operand ∷ operands) = well_formed operand && all_well_formed operands

  -- The last operand for an entry says whether it is there; with none, it is as before.
  abbrev pub held_after : A → List Bytes → Bool → Bool
  held_after e [] held = held
  held_after e (operand ∷ operands) held =
      held_after e operands (if names e operand then is_insert operand else held)

  -- One operand: the new list is sorted, and only the entry that is named may change.
  record Merged (operand : Bytes) (entries : List A) (result : List A) : Type 0 where
    sorted : IsSorted result
    holds :
        (e : A)
        → contains e result ≡ (if names e operand then is_insert operand else contains e entries)

  merge_operand-Merged :
      (operand : Bytes) (entries : List A) {result : List A}
      → IsSorted entries
      → merge_operand interpret operand entries ≡ some result
      → Merged operand entries result
  unfolding merge_operand
  merge_operand-Merged [] entries s h = elim (none_not_some h) [ ]
  merge_operand-Merged (b ∷ bytes) entries {result} s h =
      of_parts (nat_eq b prefix_insert) (nat_eq b prefix_delete) (interpret bytes) refl refl refl h
    where
      chosen : Bool → Bool → Option A → Option (List A)
      chosen i d m =
          if i
          then merge_entry interpret
              (λ entry. insert_absent entry entries (binary_search entry entries)) m
          else if d
          then merge_entry interpret (λ entry. remove_found entries (binary_search entry entries)) m
          else none

      of_parts :
          (i d : Bool) (m : Option A)
          → nat_eq b prefix_insert ≡ i
          → nat_eq b prefix_delete ≡ d
          → interpret bytes ≡ m
          → chosen i d m ≡ some result
          → Merged (b ∷ bytes) entries result
      of_parts true d (some entry) ei ed em k =
          let q : insert_absent entry entries (binary_search entry entries) ≡ result = cc k in
          subst (Merged (b ∷ bytes) entries) q (record {
            sorted = insert_absent-IsSorted entry entries s;
            holds = λ e. ground (arith, contains-insert_absent entry e entries, ei, em);
          })
      of_parts false true (some entry) ei ed em k =
          let q : remove_found entries (binary_search entry entries) ≡ result = cc k in
          subst (Merged (b ∷ bytes) entries) q (record {
            sorted = remove_found-IsSorted entry entries s;
            holds = λ e. ground (arith, contains-remove_found entry e entries s, ei, em);
          })
      of_parts true d none ei ed em k = elim (none_not_some k) [ ]
      of_parts false true none ei ed em k = elim (none_not_some k) [ ]
      of_parts false false m ei ed em k = elim (none_not_some k) [ ]

  merge_operand-total :
      (operand : Bytes) (entries : List A)
      → is_some (merge_operand interpret operand entries) ≡ well_formed operand
  unfolding merge_operand
  merge_operand-total [] entries = refl
  merge_operand-total (b ∷ bytes) entries = ground arith

  merge_operands-total :
      (operands : List Bytes) (entries : List A)
      → is_some (merge_operands interpret operands entries) ≡ all_well_formed operands
  unfolding merge_operands
  merge_operands-total [] entries = refl
  merge_operands-total (operand ∷ operands) entries =
      of_result (merge_operand interpret operand entries) refl
        (λ es. merge_operands-total operands es)
    where
      of_result :
          (r : Option (List A))
          → merge_operand interpret operand entries ≡ r
          → ((es : List A)
              → is_some (merge_operands interpret operands es) ≡ all_well_formed operands)
          → is_some (and_then interpret (merge_operands interpret operands) r)
            ≡ (well_formed operand && all_well_formed operands)
      of_result none e ih = ground (arith, merge_operand-total operand entries, e)
      of_result (some es) e ih = ground (arith, merge_operand-total operand entries, ih es, e)

  -- A merge gives a result, and does not panic, exactly when every operand is an insertion or a
  -- deletion of an entry that can be read.
  pub full_merge-total :
      (existing_value : Option (List A)) (operands : List Bytes)
      → is_some (full_merge_ordered_list interpret existing_value operands)
        ≡ all_well_formed operands
  unfolding full_merge_ordered_list
  full_merge-total existing_value operands =
      merge_operands-total operands (unwrap_or existing_value [])

  -- The list after all operands.
  pub record AllMerged (operands : List Bytes) (entries result : List A) : Type 0 where
    pub sorted : IsSorted result
    pub holds : (e : A) → contains e result ≡ held_after e operands (contains e entries)

  merge_operands-AllMerged :
      (operands : List Bytes) (entries : List A) {result : List A}
      → IsSorted entries
      → merge_operands interpret operands entries ≡ some result
      → AllMerged operands entries result
  unfolding merge_operands
  merge_operands-AllMerged [] entries {result} s h =
      let q : entries ≡ result = cc h in
      subst (AllMerged [] entries) q (record { sorted = s; holds = λ e. refl })
  merge_operands-AllMerged (operand ∷ operands) entries {result} s h =
      of_result (merge_operand interpret operand entries) refl
        (λ es t. merge_operands-AllMerged operands es t) h
    where
      of_result :
          (r : Option (List A))
          → merge_operand interpret operand entries ≡ r
          → ((es : List A)
              → IsSorted es
              → merge_operands interpret operands es ≡ some result
              → AllMerged operands es result)
          → and_then interpret (merge_operands interpret operands) r ≡ some result
          → AllMerged (operand ∷ operands) entries result
      of_result none e ih k = elim (none_not_some k) [ ]
      of_result (some es) e ih k =
          let m = merge_operand-Merged operand entries s e in
          let rest = ih es m.sorted k in
          record {
            sorted = rest.sorted;
            holds = λ x. rest.holds x ∙ ap (held_after x operands) (m.holds x);
          }

  -- If the existing entries are in strictly ascending order and a merge gives a result, then the
  -- result is in strictly ascending order, and holds an entry exactly if the last operand for it is
  -- an insertion or, where no operand is for it, if it was there before.
  pub full_merge-AllMerged :
      (existing_value : Option (List A)) (operands : List Bytes) (result : List A)
      → IsSorted (unwrap_or existing_value [])
      → full_merge_ordered_list interpret existing_value operands ≡ some result
      → AllMerged operands (unwrap_or existing_value []) result
  unfolding full_merge_ordered_list
  full_merge-AllMerged existing_value operands result s h =
      merge_operands-AllMerged operands (unwrap_or existing_value []) s h
