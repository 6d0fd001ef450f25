-- ===== src/Tests/ListColumn.antt =====
-- A column as an ascending list: the interface of a column can be filled.
use Prim.Native.Nat.Ordering.{lt, eq, gt}
use chronik.Prelude.{
  ℕ, ◌<◌, ◌≤◌, ◌≡◌, refl, true, false, Option, none, some, List, [], ◌∷◌, All, any, arith, nat_eq,
  leb, if◌then◌else◌, compare, Ordering, Option-cases, Bool-cases, subst, sym, inl, inr,
}
use chronik.Std.HashMap.{is_some}
use chronik.Std.Keyed.{or_else}
use chronik.Column.{Column, Write, put, delete, Ascends, find, written}
use chronik.Column.Writes.{find_above}

module _ {V : Type 0} where
  abbrev pub put_in : ℕ → V → List (ℕ × V) → List (ℕ × V)
  put_in k v [] = (k, v) ∷ []
  put_in k v (e ∷ es) = elim (compare k e.0) [
    | lt ↦ (k, v) ∷ e ∷ es
    | eq ↦ (k, v) ∷ es
    | gt ↦ e ∷ put_in k v es
  ]

  abbrev pub drop : ℕ → List (ℕ × V) → List (ℕ × V)
  drop k [] = []
  drop k (e ∷ es) = let rest = drop k es in if nat_eq k e.0 then rest else e ∷ rest

  abbrev pub last_in : List (ℕ × V) → Option (ℕ × V)
  last_in [] = none
  last_in (e ∷ es) = or_else (last_in es) (some e)

  abbrev pub before_in : List (ℕ × V) → ℕ → Option (ℕ × V)
  before_in [] k = none
  before_in (e ∷ es) k =
      let rest = before_in es k in if leb e.0 k then or_else rest (some e) else none

  abbrev pub from_in : List (ℕ × V) → ℕ → List (ℕ × V)
  from_in [] k = []
  from_in (e ∷ es) k = let rest = from_in es k in if leb k e.0 then e ∷ es else rest

  abbrev pub Above : ℕ → List (ℕ × V) → Type 0
  Above m = All (λ f. m < f.0)

  put-Above : (m k : ℕ) (v : V) (es : List (ℕ × V)) → m < k → Above m es → Above m (put_in k v es)
  put-Above m k v [] h a = (h, tt)
  put-Above m k v (e ∷ es) h a = by_order (compare k e.0) (put-Above m k v es h a.1)
    where
      by_order :
          (r : Ordering)
          → Above m (put_in k v es)
          → Above m (elim r [ lt ↦ (k, v) ∷ e ∷ es | eq ↦ (k, v) ∷ es | gt ↦ e ∷ put_in k v es ])
      by_order lt b = (h, a)
      by_order eq b = (h, a.1)
      by_order gt b = (a.0, b)

  Above-mono : (m k : ℕ) (es : List (ℕ × V)) → m < k → Above k es → Above m es
  Above-mono m k [] h a = tt
  Above-mono m k (e ∷ es) h a = (omega (arith, a.0), Above-mono m k es h a.1)

  Above-eq : (m n : ℕ) (es : List (ℕ × V)) → m ≡ n → Above n es → Above m es
  Above-eq m n [] h a = tt
  Above-eq m n (e ∷ es) h a = (omega (arith, h, a.0), Above-eq m n es h a.1)

  pub put-Ascends : (k : ℕ) (v : V) (es : List (ℕ × V)) → Ascends es → Ascends (put_in k v es)
  put-Ascends k v [] a = (tt, tt)
  put-Ascends k v (e ∷ es) a = by_order (compare k e.0) refl (put-Ascends k v es a.1)
    where
      by_order :
          (r : Ordering)
          → compare k e.0 ≡ r
          → Ascends (put_in k v es)
          → Ascends (elim r [ lt ↦ (k, v) ∷ e ∷ es | eq ↦ (k, v) ∷ es | gt ↦ e ∷ put_in k v es ])
      by_order lt c b = ((ground (arith, c), Above-mono k e.0 es (ground (arith, c)) a.0), a)
      by_order eq c b = (Above-eq k e.0 es (ground (arith, c)) a.0, a.1)
      by_order gt c b = (put-Above e.0 k v es (ground (arith, c)) a.0, b)

  drop-Above : (m k : ℕ) (es : List (ℕ × V)) → Above m es → Above m (drop k es)
  drop-Above m k [] a = tt
  drop-Above m k (e ∷ es) a = ground (arith, drop-Above m k es a.1, a.0)

  pub drop-Ascends : (k : ℕ) (es : List (ℕ × V)) → Ascends es → Ascends (drop k es)
  drop-Ascends k [] a = tt
  drop-Ascends k (e ∷ es) a = ground (arith, drop-Ascends k es a.1, drop-Above e.0 k es a.0)

  pub find-put :
      (k j : ℕ) (v : V) (es : List (ℕ × V))
      → find j (put_in k v es) ≡ (if nat_eq j k then some v else find j es)
  find-put k j v [] = refl
  find-put k j v (e ∷ es) = ground (arith, find-put k j v es)

  pub find-drop :
      (k j : ℕ) (es : List (ℕ × V)) → find j (drop k es) ≡ (if nat_eq j k then none else find j es)
  find-drop k j [] = ground arith
  find-drop k j (e ∷ es) = ground (arith, find-drop k j es)

  pub last_none : (es : List (ℕ × V)) → last_in es ≡ none → (j : ℕ) → find j es ≡ none
  last_none [] h j = refl
  last_none (e ∷ es) h j = ground (arith, h)

  last-Above : (m n : ℕ) (v : V) (es : List (ℕ × V)) → last_in es ≡ some (n, v) → Above m es → m < n
  last-Above m n v [] h a = ground (arith, h)
  last-Above m n v (e ∷ es) h a = elim (Option-cases (last_in es)) [
    | inl q ↦ ground (arith, h, q, a.0)
    | inr q ↦ last-Above m n v es (ground (arith, h, q.1)) a.1
  ]

  pub last_some :
      (es : List (ℕ × V)) (n : ℕ) (v : V)
      → Ascends es
      → last_in es ≡ some (n, v)
      → (find n es ≡ some v) × ((j : ℕ) → n < j → find j es ≡ none)
  last_some [] n v a h = ground (arith, h)
  last_some (e ∷ es) n v a h = elim (Option-cases (last_in es)) [
    | inl q ↦ (ground (arith, h, q), λ j l. ground (arith, h, q, l, last_none es q j))
    | inr q ↦
        let rest = last_some es n v a.1 (ground (arith, h, q.1)) in
        let above = last-Above e.0 n v es (ground (arith, h, q.1)) a.0 in
        (ground (arith, rest.0, above), λ j l. ground (arith, rest.1 j l, above, l))
  ]

  pub before_none :
      (es : List (ℕ × V)) (k : ℕ)
      → Ascends es
      → before_in es k ≡ none
      → (j : ℕ) → j ≤ k
      → find j es ≡ none
  before_none [] k a h j l = refl
  before_none (e ∷ es) k a h j l = ground (arith, h, l, find_low j e.0 es a.0)
    where
      find_low : (j m : ℕ) (es : List (ℕ × V)) → Above m es → j < m → find j es ≡ none
      find_low j m es a l = find_above j es (Above-mono j m es l a)

  before-Above :
      (m k n : ℕ) (v : V) (es : List (ℕ × V)) → before_in es k ≡ some (n, v) → Above m es → m < n
  before-Above m k n v [] h a = ground (arith, h)
  before-Above m k n v (e ∷ es) h a = elim (Option-cases (before_in es k)) [
    | inl q ↦ ground (arith, h, q, a.0)
    | inr q ↦ before-Above m k n v es (ground (arith, h, q.1)) a.1
  ]

  pub before_some :
      (es : List (ℕ × V)) (k n : ℕ) (v : V)
      → Ascends es
      → before_in es k ≡ some (n, v)
      → (find n es ≡ some v) × (n ≤ k) × ((j : ℕ) → n < j → j ≤ k → find j es ≡ none)
  before_some [] k n v a h = ground (arith, h)
  before_some (e ∷ es) k n v a h = elim (Option-cases (before_in es k)) [
    | inl q ↦ (
      ground (arith, h, q),
      ground (arith, h, q),
      λ j l m. ground (arith, h, q, l, m, before_none es k a.1 q j m),
    )
    | inr q ↦
        let here : before_in es k ≡ some (n, v) = ground (arith, h, q.1) in
        let rest = before_some es k n v a.1 here in
        let above = before-Above e.0 k n v es here a.0 in
        (ground (arith, rest.0, above), rest.1, λ j l m. ground (arith, rest.2 j l m, above, l))
  ]

  abbrev pub Found : List (ℕ × V) → ℕ → List (ℕ × V) → Type 0
  Found es k = All (λ e. (find e.0 es ≡ some e.1) × (k ≤ e.0))

  from_first :
      (e : ℕ × V) (es : List (ℕ × V)) (k : ℕ) → leb k e.0 ≡ true → from_in (e ∷ es) k ≡ e ∷ es
  from_first e es k q = ground (arith, q)

  from_rest :
      (e : ℕ × V) (es : List (ℕ × V)) (k : ℕ)
      → leb k e.0 ≡ false
      → from_in (e ∷ es) k ≡ from_in es k
  from_rest e es k q = ground (arith, q)

  kept :
      (e : ℕ × V) (es xs : List (ℕ × V)) (k : ℕ)
      → k ≤ e.0
      → Found es k xs
      → Above e.0 xs
      → Found (e ∷ es) k xs
  kept e es [] k l h a = tt
  kept e es (x ∷ xs) k l h a = ((ground (arith, h.0.0, a.0), h.0.1), kept e es xs k l h.1 a.1)

  kept_above :
      (e : ℕ × V) (es xs : List (ℕ × V)) (k : ℕ) → e.0 < k → Found es k xs → Found (e ∷ es) k xs
  kept_above e es [] k l h = tt
  kept_above e es (x ∷ xs) k l h =
      ((ground (arith, h.0.0, h.0.1, l), h.0.1), kept_above e es xs k l h.1)

  own : (es : List (ℕ × V)) → Ascends es → (k m : ℕ) → k ≤ m → Above m es → Found es k es
  own [] a k m l b = tt
  own (e ∷ es) a k m l b =
      let low : k ≤ e.0 = omega (arith, l, b.0) in
      ((ground arith, low), kept e es es k low (own es a.1 k e.0 low a.0) a.0)

  pub from_get :
      (es : List (ℕ × V)) (k : ℕ)
      → Ascends es
      → All (λ e. (find e.0 es ≡ some e.1) × (k ≤ e.0)) (from_in es k)
  from_get [] k a = tt
  from_get (e ∷ es) k a = elim (Bool-cases (leb k e.0)) [
    | inl q ↦ subst (Found (e ∷ es) k) (sym (from_first e es k q)) (
      (ground arith, ground (arith, q)),
      kept e es es k (ground (arith, q)) (own es a.1 k e.0 (ground (arith, q)) a.0) a.0,
    )
    | inr q ↦
        subst (Found (e ∷ es) k) (sym (from_rest e es k q))
          (kept_above e es (from_in es k) k (ground (arith, q)) (from_get es k a.1))
  ]

  find-any : (j : ℕ) (es : List (ℕ × V)) → is_some (find j es) ≡ any (λ e. nat_eq e.0 j) es
  find-any j [] = refl
  find-any j (e ∷ es) = ground (arith, find-any j es)

  pub from_all :
      (es : List (ℕ × V)) (k j : ℕ) (v : V)
      → find j es ≡ some v
      → k ≤ j
      → any (λ e. nat_eq e.0 j) (from_in es k) ≡ true
  from_all [] k j v h l = ground (arith, h)
  from_all (e ∷ es) k j v h l = ground (arith, h, l, from_all es k j v, find-any j es)

  pub from_ascends : (es : List (ℕ × V)) (k : ℕ) → Ascends es → Ascends (from_in es k)
  from_ascends [] k a = tt
  from_ascends (e ∷ es) k a = ground (arith, from_ascends es k a.1, a.0, a.1)

abbrev pub list_write :
    {V : Type 0} → Write V → (es : List (ℕ × V)) × Ascends es → (es : List (ℕ × V)) × Ascends es
list_write (put k v) s = (put_in k v s.0, put-Ascends k v s.0 s.1)
list_write (delete k) s = (drop k s.0, drop-Ascends k s.0 s.1)

pub find-list_write :
    {V : Type 0} (w : Write V) (s : (es : List (ℕ × V)) × Ascends es) (j : ℕ)
    → find j (list_write w s).0 ≡ written w (λ k. find k s.0) j
find-list_write (put k v) s j = find-put k j v s.0
find-list_write (delete k) s j = find-drop k j s.0

abbrev pub list_column : (V : Type 0) → Column V
list_column V = record {
  State = (es : List (ℕ × V)) × Ascends es;
  get = λ s j. find j s.0;
  last = λ s. last_in s.0;
  at_or_before = λ s k. before_in s.0 k;
  from = λ s k. from_in s.0 k;
  write = list_write;
  get_write = find-list_write;
  last_none = λ s. last_none s.0;
  last_some = λ s n v. last_some s.0 n v s.1;
  before_none = λ s k. before_none s.0 k s.1;
  before_some = λ s k n v. before_some s.0 k n v s.1;
  from_get = λ s k. from_get s.0 k s.1;
  from_all = λ s k j v. from_all s.0 k j v;
  from_ascends = λ s k. from_ascends s.0 k s.1;
}

abbrev pub no_items : (V : Type 0) → (list_column V).State
no_items V = ([], tt)
