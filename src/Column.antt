-- ===== src/Column.antt =====
-- A column family of RocksDB whose keys are numbers in big-endian bytes, so that they are iterated in
-- ascending order. The operations and their documented behaviour are an interface; a value stands for
-- its bytes.
pub mod Writes
use chronik.Prelude.{
  ℕ, ◌≡◌, ◌≤◌, ◌<◌, true, Option, none, some, List, [], ◌∷◌, All, any, nat_eq, if◌then◌else◌,
}

-- `put_cf` and `delete_cf`
pub data Write (V : Type 0) : Type 0 where
  put : ℕ → V → Write V
  delete : ℕ → Write V

abbrev pub Ascends : {V : Type 0} → List (ℕ × V) → Type 0
Ascends [] = Unit
Ascends (e ∷ es) = All (λ f. e.0 < f.0) es × Ascends es

-- The value of a number.
abbrev pub find : {V : Type 0} → ℕ → List (ℕ × V) → Option V
find j [] = none
find j ((k, v) ∷ items) = if nat_eq j k then some v else find j items

abbrev pub written : {V : Type 0} → Write V → (ℕ → Option V) → ℕ → Option V
written (put k v) m j = if nat_eq j k then some v else m j
written (delete k) m j = if nat_eq j k then none else m j

pub record Column (V : Type 0) : Type 1 where
  pub State : Type 0
  pub get : State → ℕ → Option V
  -- The first item of an iterator from the end, or backwards from a key.
  pub last : State → Option (ℕ × V)
  pub at_or_before : State → ℕ → Option (ℕ × V)
  -- The items of an iterator forwards from a key.
  pub from : State → ℕ → List (ℕ × V)
  pub write : Write V → State → State
  pub get_write : (w : Write V) (s : State) (j : ℕ) → get (write w s) j ≡ written w (get s) j
  pub last_none : (s : State) → last s ≡ none → (j : ℕ) → get s j ≡ none
  pub last_some :
      (s : State) (n : ℕ) (v : V)
      → last s ≡ some (n, v)
      → (get s n ≡ some v) × ((j : ℕ) → n < j → get s j ≡ none)
  pub before_none : (s : State) (k : ℕ) → at_or_before s k ≡ none → (j : ℕ) → j ≤ k → get s j ≡ none
  pub before_some :
      (s : State) (k n : ℕ) (v : V)
      → at_or_before s k ≡ some (n, v)
      → (get s n ≡ some v) × (n ≤ k) × ((j : ℕ) → n < j → j ≤ k → get s j ≡ none)
  pub from_get : (s : State) (k : ℕ) → All (λ e. (get s e.0 ≡ some e.1) × (k ≤ e.0)) (from s k)
  pub from_all :
      (s : State) (k j : ℕ) (v : V)
      → get s j ≡ some v
      → k ≤ j
      → any (λ e. nat_eq e.0 j) (from s k) ≡ true
  pub from_ascends : (s : State) (k : ℕ) → Ascends (from s k)

module _ {V : Type 0} (c : Column V) where
  -- A batch is written in its order.
  unfoldable pub write_all : List (Write V) → c.State → c.State
  write_all [] s = s
  write_all (w ∷ ws) s = write_all ws (c.write w s)
