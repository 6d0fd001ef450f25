-- ===== src/Index/Laws.antt =====
-- A lookup finds a value with the key if there is one, and merges keep it so.
use chronik.Prelude.{
  ℕ, ◌≡◌, ◌≢◌, refl, ◌∙◌, sym, subst, Bool, true, false, Option, none, some, List, [], ◌∷◌, arith,
  if◌then◌else◌,
}
use chronik.Std.Ord.{◌==◌, ==_iff, ==_refl, nat_ord}
use chronik.Std.BTreeSet.{contains}
use chronik.Std.HashMap.{HashMap, unwrap_or}
use chronik.Index.{Indexed, hit, miss, inconsistent, Indexable, scan, get}

module _ {V : Type 0} (x : Indexable V) where
  -- Where the number of a value is listed.
  abbrev pub is_listed : ℕ → Option V → Bool
  is_listed h none = false
  is_listed h (some value) = h == x.hash (x.get_value_key value)

  -- A number is listed under a hash exactly if a value with this hash of its key is stored under it.
  abbrev pub Lists : (ℕ → Option V) → HashMap ℕ (List ℕ) → Type 0
  Lists lookup index =
      (h serial : ℕ) → contains serial (unwrap_or (index h) []) ≡ is_listed h (lookup serial)

  -- What the result says of the values that are stored.
  abbrev pub Finds : (ℕ → Option V) → ℕ → Indexed V → Type 0
  Finds lookup key (hit serial value) = (lookup serial ≡ some value) × (x.get_value_key value ≡ key)
  Finds lookup key miss =
      (serial : ℕ) (value : V) → lookup serial ≡ some value → x.get_value_key value ≢ key
  Finds lookup key inconsistent = ⊥

  abbrev Scans : (ℕ → Option V) → ℕ → List ℕ → Indexed V → Type 0
  Scans lookup key serials (hit serial value) =
      (lookup serial ≡ some value) × (x.get_value_key value ≡ key)
  Scans lookup key serials miss =
      (serial : ℕ) (value : V)
      → contains serial serials ≡ true
      → lookup serial ≡ some value
      → x.get_value_key value ≢ key
  Scans lookup key serials inconsistent = ⊥

  Scans-skip :
      (lookup : ℕ → Option V) (key s : ℕ) (v : V) (serials : List ℕ) (r : Indexed V)
      → lookup s ≡ some v
      → (x.get_value_key v == key) ≡ false
      → Scans lookup key serials r
      → Scans lookup key (s ∷ serials) r
  unfolding contains
  Scans-skip lookup key s v serials (hit n w) l e h = h
  Scans-skip lookup key s v serials miss l e h = λ serial value c found k.
      ground
        (arith, h serial value, c, found, k, l, e, ==_iff serial s, ==_iff (x.get_value_key v) key)
  Scans-skip lookup key s v serials inconsistent l e h = h

  Scans-if :
      (lookup : ℕ → Option V) (key s : ℕ) (v : V) (serials : List ℕ) (r : Indexed V) (b : Bool)
      → lookup s ≡ some v
      → (x.get_value_key v == key) ≡ b
      → Scans lookup key serials r
      → Scans lookup key (s ∷ serials) (if b then hit s v else r)
  Scans-if lookup key s v serials r true l e h = (l, (==_iff (x.get_value_key v) key).0 e)
  Scans-if lookup key s v serials r false l e h = Scans-skip lookup key s v serials r l e h

  Scans-cons :
      (lookup : ℕ → Option V) (key s : ℕ) (serials : List ℕ) (r : Indexed V) (o : Option V)
      → lookup s ≡ o
      → o ≢ none
      → Scans lookup key serials r
      → Scans lookup key (s ∷ serials) (elim o [
        | none ↦ inconsistent
        | some value ↦ if x.get_value_key value == key then hit s value else r
      ])
  Scans-cons lookup key s serials r none l ne h = ne refl
  Scans-cons lookup key s serials r (some v) l ne h =
      Scans-if lookup key s v serials r (x.get_value_key v == key) l refl h

  scan-Scans :
      (lookup : ℕ → Option V) (key : ℕ) (serials : List ℕ)
      → ((serial : ℕ) → contains serial serials ≡ true → lookup serial ≢ none)
      → Scans lookup key serials (scan x lookup key serials)
  unfolding scan contains
  scan-Scans lookup key [] h = λ serial value e. ground (arith, e)
  scan-Scans lookup key (s ∷ serials) h =
      Scans-cons lookup key s serials (scan x lookup key serials) (lookup s) refl
        (h s (ground (arith, ==_refl s)))
        (scan-Scans lookup key serials (λ serial c. h serial (ground (arith, c))))

  listed_some : (h : ℕ) (o : Option V) → is_listed h o ≡ true → o ≢ none
  listed_some h none e = ground (arith, e)
  listed_some h (some v) e = ground arith

  Finds-Scans :
      (lookup : ℕ → Option V) (index : HashMap ℕ (List ℕ)) (key : ℕ) (r : Indexed V)
      → Lists lookup index
      → Scans lookup key (unwrap_or (index (x.hash key)) []) r
      → Finds lookup key r
  Finds-Scans lookup index key (hit n v) l h = h
  Finds-Scans lookup index key miss l h = λ serial value found k.
      h serial value (l (x.hash key) serial ∙ ground (arith, found, k, ==_refl (x.hash key))) found
        k
  Finds-Scans lookup index key inconsistent l h = h

  get_scan :
      (lookup : ℕ → Option V) (index : HashMap ℕ (List ℕ)) (key : ℕ)
      → get x lookup index key ≡ scan x lookup key (unwrap_or (index (x.hash key)) [])
  unfolding get scan
  get_scan lookup index key = ground arith

  -- If every value is listed under the hash of its key, and nothing else is, then a lookup finds a
  -- value with the key exactly if there is one, and never fails.
  pub get-Finds :
      (lookup : ℕ → Option V) (index : HashMap ℕ (List ℕ)) (key : ℕ)
      → Lists lookup index
      → Finds lookup key (get x lookup index key)
  unfolding get
  get-Finds lookup index key l = subst (Finds lookup key) (sym (get_scan lookup index key)) (
      Finds-Scans lookup index key (scan x lookup key (unwrap_or (index (x.hash key)) [])) l (
        scan-Scans lookup key (unwrap_or (index (x.hash key)) [])
          (λ serial c. listed_some (x.hash key) (lookup serial) (sym (l (x.hash key) serial) ∙ c))))
