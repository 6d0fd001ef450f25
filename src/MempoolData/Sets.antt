-- ===== src/MempoolData/Sets.antt =====
-- The mempool's maps hold sets, in ascending order, and none that is empty; two maps with the same items
-- are then the same.
use chronik.Prelude.{
  ◌≡◌, refl, sym, ap, Bool, true, false, not, ◌&&◌, ◌||◌, Option, none, some, List, [], ◌∷◌, arith,
}
use chronik.Std.Ord.{Ord, ==_refl, nat_ord, int_ord, list_ord, pair_ord}
use chronik.Std.BTreeSet
use chronik.Std.BTreeSet.{contains, is_empty}
use chronik.Std.Ascending.{is_ascending, same_set, is_ascending-insert, is_ascending-remove}
use chronik.Std.HashMap.{unwrap_or}
use chronik.Chain.{Bytes, Sha256d, OutPoint, outpoint_ord}
use chronik.MempoolData.Defs.{
  TimedTx, UtxoDelta, MempoolData, no_delta, set_delta, tidy_delta, add_script_tx, remove_script_tx,
}
use chronik.MempoolData.Insert.{spend_delta}
use chronik.MempoolData.Delete.{unspend_delta}

module _ {A : Type 0} where
  abbrev pub is_untidy : ⦃o : Ord A⦄ → Option (List A) → Bool
  is_untidy none = false
  is_untidy (some xs) = is_empty xs || not (is_ascending xs)

  pub insert-full : ⦃o : Ord A⦄ → (a : A) (xs : List A) → is_empty (BTreeSet.insert a xs) ≡ false
  unfolding BTreeSet.insert
  insert-full a [] = refl
  insert-full ⦃o⦄ a (x ∷ xs) = ground arith

  pub same_stored :
      ⦃o : Ord A⦄ (p q : Option (List A))
      → is_untidy p ≡ false
      → is_untidy q ≡ false
      → ((x : A) → contains x (unwrap_or p []) ≡ contains x (unwrap_or q []))
      → p ≡ q
  unfolding contains
  same_stored none none h h' e = refl
  same_stored none (some []) h h' e = ground (arith, h')
  same_stored none (some (x ∷ xs)) h h' e = ground (arith, e x, ==_refl x)
  same_stored (some []) q h h' e = ground (arith, h)
  same_stored (some (x ∷ xs)) none h h' e = ground (arith, e x, ==_refl x)
  same_stored (some (x ∷ xs)) (some ys) h h' e =
      ap some (same_set (x ∷ xs) ys (ground (arith, h)) (ground (arith, h')) e)

  -- The set under a key, empty where there is none.
  pub set_of :
      ⦃o : Ord A⦄ (p : Option (List A)) → is_untidy p ≡ false → is_ascending (unwrap_or p []) ≡ true
  set_of none h = refl
  set_of (some xs) h = ground (arith, h)

abbrev untidy_sets : UtxoDelta → Bool
untidy_sets d =
    (is_empty d.inserts && is_empty d.deletes)
    || not (is_ascending d.inserts && is_ascending d.deletes)

abbrev is_untidy_delta : Option UtxoDelta → Bool
is_untidy_delta none = false
is_untidy_delta (some d) = untidy_sets d

has_none :
    {A : Type 0} (d : UtxoDelta)
    → untidy_sets d ≡ false
    → ((o : OutPoint) → contains o d.inserts ≡ false)
    → ((o : OutPoint) → contains o d.deletes ≡ false)
    → A
unfolding contains
has_none d h e f = absurd (both d.inserts d.deletes (ground (arith, h)) e f)
  where
    both :
        (xs ys : List OutPoint)
        → (is_empty xs && is_empty ys) ≡ false
        → ((o : OutPoint) → contains o xs ≡ false)
        → ((o : OutPoint) → contains o ys ≡ false)
        → ⊥
    both [] [] h e f = ground (arith, h)
    both [] (y ∷ ys) h e f = ground (arith, f y, ==_refl y)
    both (x ∷ xs) ys h e f = ground (arith, e x, ==_refl x)

-- Two deltas with the same outpoints are the same, also where none is stored.
pub same_delta :
    (p q : Option UtxoDelta)
    → is_untidy_delta p ≡ false
    → is_untidy_delta q ≡ false
    → ((o : OutPoint)
        → contains o (unwrap_or p no_delta).inserts ≡ contains o (unwrap_or q no_delta).inserts)
    → ((o : OutPoint)
        → contains o (unwrap_or p no_delta).deletes ≡ contains o (unwrap_or q no_delta).deletes)
    → p ≡ q
unfolding contains
same_delta none none h h' e f = refl
same_delta none (some d) h h' e f = has_none d h' (λ o. sym (e o)) (λ o. sym (f o))
same_delta (some d) none h h' e f = has_none d h e f
same_delta (some d) (some d') h h' e f =
    let a = same_set d.inserts d'.inserts (ground (arith, h)) (ground (arith, h')) e in
    let b = same_set d.deletes d'.deletes (ground (arith, h)) (ground (arith, h')) f in
    λ i. some (record { inserts = a i; deletes = b i })

pub delta_sets :
    (p : Option UtxoDelta)
    → is_untidy_delta p ≡ false
    → (is_ascending (unwrap_or p no_delta).inserts ≡ true)
      × (is_ascending (unwrap_or p no_delta).deletes ≡ true)
delta_sets none h = (refl, refl)
delta_sets (some d) h = (ground (arith, h), ground (arith, h))

pub record HoldsSets (s : MempoolData) : Type 0 where
  pub history : (q : Bytes) → is_untidy (s.script_txs q) ≡ false
  pub delta : (q : Bytes) → is_untidy_delta (s.utxos q) ≡ false
  pub spends : (t : Sha256d) → is_untidy (s.spends t) ≡ false

pub add_script_tx-HoldsSets :
    (e : TimedTx) (key : Bytes) (s : MempoolData) → HoldsSets s → HoldsSets (add_script_tx e key s)
add_script_tx-HoldsSets e key s n = record {
  history = λ q. ground (
    arith,
    n.history q,
    insert-full e (unwrap_or (s.script_txs key) []),
    is_ascending-insert e (unwrap_or (s.script_txs key) [])
        (set_of (s.script_txs key) (n.history key)),
  );
  delta = n.delta;
  spends = n.spends;
}

pub remove_script_tx-HoldsSets :
    (e : TimedTx) (key : Bytes) (s : MempoolData)
    → HoldsSets s
    → HoldsSets (remove_script_tx e key s)
remove_script_tx-HoldsSets e key s n = record {
  history = λ q. ground (
    arith,
    n.history q,
    is_ascending-remove e (unwrap_or (s.script_txs key) [])
        (set_of (s.script_txs key) (n.history key)),
  );
  delta = λ q. ground (arith, n.delta q);
  spends = λ t. ground (arith, n.spends t);
}

abbrev pub AreSets : UtxoDelta → Type 0
AreSets d = (is_ascending d.inserts ≡ true) × (is_ascending d.deletes ≡ true)

pub spend_delta-AreSets : (o : OutPoint) (d : UtxoDelta) → AreSets d → AreSets (spend_delta o d)
unfolding spend_delta
spend_delta-AreSets o d (h, h') = (
  ground (arith, h, is_ascending-remove o d.inserts),
  ground (arith, h', is_ascending-insert o d.deletes),
)

pub unspend_delta-AreSets : (o : OutPoint) (d : UtxoDelta) → AreSets d → AreSets (unspend_delta o d)
unfolding unspend_delta
unspend_delta-AreSets o d (h, h') = (
  ground (arith, h, is_ascending-insert o d.inserts),
  ground (arith, h', is_ascending-remove o d.deletes),
)

pub tidy_delta-HoldsSets :
    (key : Bytes) (d : UtxoDelta) (s : MempoolData)
    → AreSets d
    → HoldsSets s
    → HoldsSets (tidy_delta key d s)
tidy_delta-HoldsSets key d s (h, h') n = record {
  history = λ q. ground (arith, n.history q);
  delta = λ q. ground (arith, n.delta q, h, h');
  spends = λ t. ground (arith, n.spends t);
}

pub set_delta-HoldsSets :
    (key : Bytes) (d : UtxoDelta) (s : MempoolData)
    → untidy_sets d ≡ false
    → HoldsSets s
    → HoldsSets (set_delta key d s)
set_delta-HoldsSets key d s full n = record {
  history = n.history;
  delta = λ q. ground (arith, n.delta q, full);
  spends = n.spends;
}
