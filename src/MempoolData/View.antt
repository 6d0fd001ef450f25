-- ===== src/MempoolData/View.antt =====
-- What a reader sees of the mempool at one key, and how the loops change it.
use chronik.Prelude.{
  ◌≡◌, refl, ◌∙◌, ap, Bool, true, false, not, ◌&&◌, ◌||◌, List, [], ◌∷◌, arith, if◌then◌else◌,
}
use chronik.Std.Ord.{◌==◌, ==_iff, nat_ord, int_ord, list_ord, pair_ord}
use chronik.Std.BTreeSet.{contains, contains-insert, contains-remove}
use chronik.Std.HashMap.{unwrap_or}
use chronik.Chain.{Bytes, Sha256d, OutPoint, outpoint_ord}
use chronik.MempoolData.Defs.{
  TimedTx, Spend, UtxoDelta, MempoolData, M, Outcome, ok, err, fail_if, ◌>>◌, MempoolDataError,
  for_each, delta_of, tidy_delta, add_script_tx, remove_script_tx,
}
use chronik.MempoolData.Insert.{spends_of}

-- The transaction is in the history of the key.
unfoldable pub in_history : MempoolData → Bytes → TimedTx → Bool
in_history s key e = contains e (unwrap_or (s.script_txs key) [])

-- The outpoint is a new UTXO of the key, made by the mempool.
unfoldable pub inserted : MempoolData → Bytes → OutPoint → Bool
inserted s key o = contains o (delta_of s key).inserts

-- The outpoint is a UTXO of the key in the database, spent by the mempool.
unfoldable pub deleted : MempoolData → Bytes → OutPoint → Bool
deleted s key o = contains o (delta_of s key).deletes

unfoldable pub is_spent_by : MempoolData → Sha256d → Spend → Bool
is_spent_by s txid sp = contains sp (spends_of s txid)

-- The loop on a view.
abbrev pub run : {X W : Type 0} → (X → W → W) → List X → W → W
run g [] w = w
run g (x ∷ xs) w = run g xs (g x w)

pub run-same : {X W : Type 0} (xs : List X) (w : W) → run (λ _ v. v) xs w ≡ w
run-same [] w = refl
run-same (x ∷ xs) w = run-same xs w

-- Inversion of what has succeeded.
pub fail_if-ok :
    (b : Bool) (e : MempoolDataError) {s s' : MempoolData} → fail_if b e s ≡ ok tt s' → s' ≡ s
fail_if-ok true e h = cc
fail_if-ok false e h = cc

pub if-ok :
    (b : Bool) (e : MempoolDataError) (s t : MempoolData) {s' : MempoolData}
    → ◌≡◌ {A = Outcome (Unit {0})} (if b then ok tt s else err e t) (ok tt s')
    → (b ≡ true) × (s' ≡ s)
if-ok true e s t h = (refl, cc)
if-ok false e s t h = cc

pub >>-ok :
    {B : Type 0} (m : M (Unit {0})) (k : M B) (s : MempoolData) {b : B} {s' : MempoolData}
    → (m >> k) s ≡ ok b s'
    → (t : MempoolData) × (m s ≡ ok tt t) × (k t ≡ ok b s')
>>-ok {B} m k s {b} {s'} h = cases (m s) refl h
  where
    cases :
        (r : Outcome (Unit {0}))
        → m s ≡ r
        → (elim r [ ok _ t ↦ k t | err e t ↦ err e t ]) ≡ ok b s'
        → (t : MempoolData) × (m s ≡ ok tt t) × (k t ≡ ok b s')
    cases (ok _ t) e g = (t, e, g)
    cases (err x t) e g = cc

pub for_each-ok :
    {X : Type 0} (f : X → M (Unit {0})) (x : X) (xs : List X) {s s' : MempoolData}
    → for_each f (x ∷ xs) s ≡ ok tt s'
    → (t : MempoolData) × (f x s ≡ ok tt t) × (for_each f xs t ≡ ok tt s')
unfolding for_each
for_each-ok f x xs {s} h = >>-ok (f x) (for_each f xs) s h

-- Two methods one after the other change the view one after the other.
pub >>-view :
    {B W : Type 0} (view : MempoolData → W) (m : M (Unit {0})) (k : M B) (f g : W → W)
    → ((s s' : MempoolData) → m s ≡ ok tt s' → view s' ≡ f (view s))
    → ((b : B) (s s' : MempoolData) → k s ≡ ok b s' → view s' ≡ g (view s))
    → (b : B) (s s' : MempoolData) → (m >> k) s ≡ ok b s'
    → view s' ≡ g (f (view s))
>>-view view m k f g first second b s s' h =
    let (t, hm, hk) = >>-ok m k s h in second b t s' hk ∙ ap g (first s t hm)

-- If each round that succeeds changes the view by `g`, so does a loop that succeeds.
pub for_each-view :
    {X W : Type 0} (view : MempoolData → W) (f : X → M (Unit {0})) (g : X → W → W)
    → ((x : X) (s s' : MempoolData) → f x s ≡ ok tt s' → view s' ≡ g x (view s))
    → (xs : List X) (s s' : MempoolData) → for_each f xs s ≡ ok tt s'
    → view s' ≡ run g xs (view s)
unfolding for_each
for_each-view view f g step [] s s' h = ground arith
for_each-view view f g step (x ∷ xs) s s' h =
    let (t, first, rest) = for_each-ok f x xs h in
    for_each-view view f g step xs t s' rest ∙ ap (run g xs) (step x s t first)

module _ (key : Bytes) (s : MempoolData) where
  pub in_history-add :
      (e : TimedTx) (q : Bytes) (x : TimedTx)
      → in_history (add_script_tx e key s) q x ≡ ((q == key && x == e) || in_history s q x)
  unfolding in_history
  in_history-add e q x =
      ground (arith, ==_iff q key, contains-insert e x (unwrap_or (s.script_txs key) []))

  pub in_history-remove :
      (e : TimedTx) (q : Bytes) (x : TimedTx)
      → in_history (remove_script_tx e key s) q x ≡ (not (q == key && x == e) && in_history s q x)
  unfolding in_history contains
  in_history-remove e q x =
      ground (arith, ==_iff q key, contains-remove e x (unwrap_or (s.script_txs key) []))

  pub in_history-tidy :
      (d : UtxoDelta) (q : Bytes) (x : TimedTx)
      → in_history (tidy_delta key d s) q x ≡ in_history s q x
  unfolding in_history
  in_history-tidy d q x = ground arith

  pub inserted-tidy :
      (d : UtxoDelta) (q : Bytes) (o : OutPoint)
      → inserted (tidy_delta key d s) q o
        ≡ (if q == key then contains o d.inserts else inserted s q o)
  unfolding inserted contains
  inserted-tidy d q o = ground arith

  pub deleted-tidy :
      (d : UtxoDelta) (q : Bytes) (o : OutPoint)
      → deleted (tidy_delta key d s) q o
        ≡ (if q == key then contains o d.deletes else deleted s q o)
  unfolding deleted contains
  deleted-tidy d q o = ground arith
