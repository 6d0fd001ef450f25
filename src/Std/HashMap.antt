-- ===== src/Std/HashMap.antt =====
-- `HashMap` as a function; the order in which it is iterated is a parameter where it matters.
use chronik.Prelude.{Bool, true, false, Option, none, some, if◌then◌else◌}
use chronik.Std.Ord.{Ord, ◌==◌}

abbrev pub HashMap {ℓ κ} : Type ℓ → Type κ → Type (ℓ ⊔ κ)
HashMap K V = K → Option V

abbrev pub is_some {ℓ} : {A : Type ℓ} → Option A → Bool
is_some none = false
is_some (some a) = true

abbrev pub unwrap_or {ℓ} : {A : Type ℓ} → Option A → A → A
unwrap_or none d = d
unwrap_or (some a) d = a

module _ {ℓ κ} {K : Type ℓ} {V : Type κ} ⦃o : Ord K⦄ where
  abbrev pub empty : HashMap K V
  empty k = none

  abbrev pub insert : K → V → HashMap K V → HashMap K V
  insert k v m j = if j == k then some v else m j

  abbrev pub remove : K → HashMap K V → HashMap K V
  remove k m j = if j == k then none else m j
