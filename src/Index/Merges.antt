-- ===== src/Index/Merges.antt =====
-- The merges of the values that a batch stores or deletes.
use chronik.Prelude.{
  ℕ, ◌≡◌, refl, ◌∙◌, Bool, true, false, not, ◌||◌, ◌&&◌, Option, none, some, List, [], ◌∷◌, map,
  any, arith, if◌then◌else◌,
}
use chronik.Std.Ord.{◌==◌, ==_iff, nat_ord}
use chronik.Std.BTreeSet.{contains}
use chronik.Std.HashMap.{HashMap, is_some, unwrap_or}
use chronik.Std.Keyed.{or_else}
use chronik.Std.SortedVec.{IsSorted}
use chronik.Chain.{Bytes}
use chronik.MergeOps.{full_merge_ordered_list, operands_at}
use chronik.MergeOps.Laws.{held_after, full_merge-AllMerged}
use chronik.Column.{Ascends, find}
use chronik.Column.Writes.{find_above}
use chronik.Index.{Indexable, insert, delete}
use chronik.Index.Laws.{is_listed, Lists}

module _ {V : Type 0} (x : Indexable V) where
  is_item : ℕ → ℕ → ℕ × V → Bool
  is_item h e item = h == x.hash (x.get_value_key item.1) && e == item.0

  any-find :
      (h e : ℕ) (items : List (ℕ × V))
      → Ascends items
      → any (is_item h e) items ≡ is_listed x h (find e items)
  unfolding is_item
  any-find h e [] a = refl
  any-find h e ((k, v) ∷ items) a =
      ground (arith, any-find h e items a.1, find_above k items a.0, ==_iff e k)

  module _ (interpret : Bytes → Option ℕ)
      (reads : (n : ℕ) → interpret (x.as_bytes n) ≡ some n) where
    held-insert :
        (h e : ℕ) (items : List (ℕ × V)) (held : Bool)
        → held_after interpret e (operands_at h (map (λ item. insert x item.0 item.1) items)) held
          ≡ (any (is_item h e) items || held)
    unfolding is_item
    held-insert h e [] held = refl
    held-insert h e ((k, v) ∷ items) held =
        ground (arith, held-insert h e items held, held-insert h e items true, reads k)

    held-delete :
        (h e : ℕ) (items : List (ℕ × V)) (held : Bool)
        → held_after interpret e
            (operands_at h (map (λ item. delete x item.0 (x.get_value_key item.1)) items))
            held
          ≡ (not (any (is_item h e) items) && held)
    unfolding is_item
    held-delete h e [] held = refl
    held-delete h e ((k, v) ∷ items) held =
        ground (arith, held-delete h e items held, held-delete h e items false, reads k)

    -- The lists that RocksDB has merged the operands of a batch into.
    abbrev pub Merged : HashMap ℕ (List ℕ) → List (ℕ × Bytes) → HashMap ℕ (List ℕ) → Type 0
    Merged index batch after =
        (h : ℕ)
        → full_merge_ordered_list interpret (index h) (operands_at h batch)
          ≡ some (unwrap_or (after h) [])

    -- Every value is listed under the hash of its key, nothing else is, and the lists are in order.
    abbrev pub Kept : (ℕ → Option V) → HashMap ℕ (List ℕ) → Type 0
    Kept lookup index = Lists x lookup index × ((h : ℕ) → IsSorted (unwrap_or (index h) []))

    module _ (lookup : ℕ → Option V) (index after : HashMap ℕ (List ℕ)) (items : List (ℕ × V))
        (ascends : Ascends items) (kept : Kept lookup index) where
      -- Where a number's bytes are read as that number: if every value is listed under the hash of its
      -- key and nothing else is, then so it is after a batch that stores values under new numbers in
      -- ascending order and merges their insertions.
      pub insert-Kept :
          ((j : ℕ) (v : V) → find j items ≡ some v → lookup j ≡ none)
          → Merged index (map (λ item. insert x item.0 item.1) items) after
          → Kept (λ j. or_else (find j items) (lookup j)) after
      insert-Kept fresh merged = (
        λ h e.
            (full_merge-AllMerged interpret (index h)
                (operands_at h (map (λ item. insert x item.0 item.1) items))
                (unwrap_or (after h) []) (kept.1 h) (merged h)).holds
              e
            ∙ held-insert h e items (contains e (unwrap_or (index h) []))
            ∙ joined h e (find e items) (lookup e) (any-find h e items ascends) (kept.0 h e)
                (fresh e),
        λ h.
            (full_merge-AllMerged interpret (index h)
              (operands_at h (map (λ item. insert x item.0 item.1) items)) (unwrap_or (after h) [])
              (kept.1 h) (merged h)).sorted,
      )
        where
          joined :
              (h e : ℕ) (new old : Option V) {in_items held : Bool}
              → in_items ≡ is_listed x h new
              → held ≡ is_listed x h old
              → ((v : V) → new ≡ some v → old ≡ none)
              → (in_items || held) ≡ is_listed x h (or_else new old)
          joined h e none old a b f = ground (arith, a, b)
          joined h e (some v) old a b f = ground (arith, a, b, f v refl)

      -- The same holds after a batch that deletes values and merges their deletions.
      pub delete-Kept :
          ((j : ℕ) (v : V) → find j items ≡ some v → lookup j ≡ some v)
          → Merged index (map (λ item. delete x item.0 (x.get_value_key item.1)) items) after
          → Kept (λ j. if is_some (find j items) then none else lookup j) after
      delete-Kept stored merged = (
        λ h e.
            (full_merge-AllMerged interpret (index h)
                (operands_at h (map (λ item. delete x item.0 (x.get_value_key item.1)) items))
                (unwrap_or (after h) []) (kept.1 h) (merged h)).holds
              e
            ∙ held-delete h e items (contains e (unwrap_or (index h) []))
            ∙ left h e (find e items) (lookup e) (any-find h e items ascends) (kept.0 h e)
                (stored e),
        λ h.
            (full_merge-AllMerged interpret (index h)
              (operands_at h (map (λ item. delete x item.0 (x.get_value_key item.1)) items))
              (unwrap_or (after h) []) (kept.1 h) (merged h)).sorted,
      )
        where
          left :
              (h e : ℕ) (gone old : Option V) {in_items held : Bool}
              → in_items ≡ is_listed x h gone
              → held ≡ is_listed x h old
              → ((v : V) → gone ≡ some v → old ≡ some v)
              → (not in_items && held) ≡ is_listed x h (if is_some gone then none else old)
          left h e none old a b f = ground (arith, a, b)
          left h e (some v) old a b f = ground (arith, a, b, f v refl)
