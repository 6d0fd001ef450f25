-- ===== src/Utxos/Grouped.antt =====
-- What grouping by script leaves at one key.
use chronik.Prelude.{
  ◌≡◌, refl, sym, ap, ◌∙◌, Option, none, some, List, [], ◌∷◌, ◌++◌, append_assoc, map, All, arith,
  if◌then◌else◌, Bool-cases, subst, ◌⊎◌, inl, inr,
}
use chronik.Std.Ord.{◌==◌, ==_iff, list_ord, nat_ord}
use chronik.Std.HashMap
use chronik.Std.HashMap.{HashMap, unwrap_or}
use chronik.Chain.{Bytes}
use chronik.Utxos.Defs.{UtxoData, UtxosError, push_all}
use chronik.Utxos.Insert.{
  Changed, changed, inconsistent, update_values, first_error, value_of, or_error,
}

-- The items under a key, in their order.
unfoldable pub at_key : {V : Type 0} → Bytes → List (Bytes × V) → List V
at_key q [] = []
at_key q ((key, v) ∷ items) = if q == key then v ∷ at_key q items else at_key q items

abbrev pub nonempty : {V : Type 0} → List V → Option (List V)
nonempty [] = none
nonempty (v ∷ vs) = some (v ∷ vs)

-- What is at the key already, and the further items behind it.
abbrev pub extended : {V : Type 0} → Option (List V) → List V → Option (List V)
extended none vs = nonempty vs
extended (some us) vs = some (us ++ vs)

append_nil : {V : Type 0} (xs : List V) → xs ++ [] ≡ xs
append_nil [] = refl
append_nil (x ∷ xs) = ap (λ r. x ∷ r) (append_nil xs)

extended_nil : {V : Type 0} (o : Option (List V)) → extended o [] ≡ o
extended_nil none = refl
extended_nil (some us) = ap some (append_nil us)

extended_push :
    {V : Type 0} (o : Option (List V)) (v : V) (vs : List V)
    → extended (some (unwrap_or o [] ++ v ∷ [])) vs ≡ extended o (v ∷ vs)
extended_push none v vs = refl
extended_push (some us) v vs = ap some (append_assoc us (v ∷ []) vs)

pub push_all-at_key :
    {V : Type 0} (items : List (Bytes × V)) (m : HashMap Bytes (List V)) (q : Bytes)
    → push_all items m q ≡ extended (m q) (at_key q items)
unfolding push_all at_key
push_all-at_key [] m q = sym (extended_nil (m q))
push_all-at_key ((key, v) ∷ items) m q =
    push_all-at_key items (HashMap.insert key (unwrap_or (m key) [] ++ v ∷ []) m) q
    ∙ ground (arith, extended_push (m q) v (at_key q items), ==_iff q key)

abbrev pub Fine : Option (Changed (List UtxoData)) → Type 0
Fine none = Unit
Fine (some (changed entries)) = Unit
Fine (some (inconsistent e)) = ⊥

or_error-Fine :
    (r : Option (Changed (List UtxoData))) (rest : Option UtxosError)
    → or_error r rest ≡ none
    → Fine r × (rest ≡ none)
or_error-Fine none rest e = (tt, e)
or_error-Fine (some (changed entries)) rest e = (tt, e)
or_error-Fine (some (inconsistent u)) rest e = ground (arith, e)

first_error-Fine :
    (keys : List Bytes) (m : HashMap Bytes (Changed (List UtxoData)))
    → first_error keys m ≡ none
    → All (λ key. Fine (m key)) keys
first_error-Fine [] m h = tt
first_error-Fine (key ∷ keys) m h =
    let parts = or_error-Fine (m key) (first_error keys m) h in
    (parts.0, first_error-Fine keys m parts.1)

at_key-All :
    {V : Type 0} (P : Bytes → Type 0) (items : List (Bytes × V)) (q : Bytes)
    → All P (map (λ item. item.0) items)
    → (at_key q items ≡ []) ⊎ P q
unfolding at_key
at_key-All P [] q h = inl refl
at_key-All P ((key, v) ∷ items) q h = elim (Bool-cases (q == key)) [
  | inl e ↦ inr (subst P (sym ((==_iff q key).0 e)) h.0)
  | inr e ↦ elim (at_key-All P items q h.1) [ inl n ↦ inl (ground (arith, n, e)) | inr p ↦ inr p ]
]

Fine-changed :
    (c : Changed (List UtxoData)) (old : List UtxoData)
    → Fine (some c)
    → c ≡ changed (unwrap_or (value_of (some c)) old)
Fine-changed (changed entries) old h = refl
Fine-changed (inconsistent e) old h = ground (arith, h)

module _ {X : Type 0} where
  -- Where no key has an error, each has the result of its items, or what it had if there are none.
  pub update_values-at_key :
      (f : Bytes → List X → Changed (List UtxoData)) (items : List (Bytes × X)) (q : Bytes)
      (old : List UtxoData)
      → first_error (map (λ item. item.0) items) (update_values f (push_all items HashMap.empty))
        ≡ none
      → f q [] ≡ changed old
      → f q (at_key q items)
        ≡ changed (unwrap_or (value_of (update_values f (push_all items HashMap.empty) q)) old)
  update_values-at_key f items q old h e =
      by_items (at_key q items) (push_all-at_key items HashMap.empty q) (
        at_key-All (λ key. Fine (update_values f (push_all items HashMap.empty) key)) items q
          (first_error-Fine (map (λ item. item.0) items)
            (update_values f (push_all items HashMap.empty)) h))
    where
      by_items :
          (vs : List X)
          → push_all items HashMap.empty q ≡ nonempty vs
          → (vs ≡ []) ⊎ Fine (update_values f (push_all items HashMap.empty) q)
          → f q vs
            ≡ changed (unwrap_or (value_of (update_values f (push_all items HashMap.empty) q)) old)
      by_items [] a fine = ground (arith, a, e)
      by_items (v ∷ vs) a (inl e2) = ground (arith, e2)
      by_items (v ∷ vs) a (inr fine) =
          subst
            (λ o.
              Fine (elim o [ none ↦ none | some us ↦ some (f q us) ])
              → f q (v ∷ vs)
                ≡ changed
                    (unwrap_or (value_of (elim o [ none ↦ none | some us ↦ some (f q us) ])) old))
            (sym a) (Fine-changed (f q (v ∷ vs)) old) fine
