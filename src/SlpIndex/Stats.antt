-- ===== src/SlpIndex/Stats.antt =====
-- What the writes of `update_token_stats` leave in the column of the statistics.
use chronik.Prelude.{
  ℕ, ◌≡◌, refl, ◌∙◌, ap, sym, ℤ, Bool, ◌||◌, Option, some, List, [], ◌∷◌, map, any, All, nat_eq,
  nat_eq_iff, arith, inr, if◌then◌else◌,
}
use chronik.Std.HashMap.{HashMap, unwrap_or}
use chronik.Slp.{TokenId, TokenStats}
use chronik.MempoolSlpData.{no_stats}
use chronik.Column.{Column, put, written}
use chronik.Column.Writes.{puts}
use chronik.SlpIndex.Entry.{TokenNum, ok}
use chronik.SlpIndex.Tables.{SlpTables, SlpWrite, write_stats, commit}
use chronik.SlpIndex.Numbers.{Cache}
use chronik.SlpIndex.Numbering.{IsNumbered, Agrees}
use chronik.SlpIndex.Entries.{HasTokenNum, Looks, get_token_num-Looks}
use chronik.SlpIndex.Supply.{Supply, updated_stats, write_stats_of}

abbrev pub put_stats : TokenNum × TokenStats → SlpWrite
put_stats e = write_stats (put e.0 e.1)

some_same : {A : Type 0} {a b : A} → some a ≡ some b → a ≡ b
some_same h = ground (arith, h)

pick :
    (id k n j : ℕ) (x y : TokenStats) (b : Bool) (old : Option TokenStats)
    → (id ≡ k → n ≡ j)
    → (n ≡ j → id ≡ k)
    → (id ≡ k → x ≡ y)
    → (if b then some y else (if nat_eq n j then some x else old))
      ≡ (if nat_eq id k || b then some y else old)
pick id k n j x y b old to from same =
    ground (arith, nat_eq_iff id k, nat_eq_iff n j, to, from, same)

module _ (ids : Column TokenId) where
  abbrev pub stats_at : SlpTables ids → TokenNum → TokenStats
  stats_at t n = unwrap_or (t.token_stats n) no_stats

  pub commit-put_stats :
      (es : List (TokenNum × TokenStats)) (u : SlpTables ids)
      → commit ids (map put_stats es) u ≡ record u { token_stats = puts es u.token_stats }
  unfolding commit
  commit-put_stats [] u = refl
  commit-put_stats (e ∷ es) u =
      commit-put_stats es (record u { token_stats = written (put e.0 e.1) u.token_stats })

  module _ (op : ℤ → ℤ → ℤ) (t t' : SlpTables ids) (v : IsNumbered ids t') (s : Supply) where
    abbrev new_stats : TokenId → TokenNum → TokenStats
    new_stats id n = updated_stats op s id (stats_at t n)

    -- The entries for tokens, under their numbers.
    abbrev pub AreFor : List TokenId → List (TokenNum × TokenStats) → Type 0
    AreFor [] [] = Unit {0}
    AreFor (id ∷ rest) (e ∷ es) =
        (t'.token_num_by_id id ≡ some e.0) × ((e.1 ≡ new_stats id e.0) × AreFor rest es)
    AreFor [] (e ∷ es) = ⊥
    AreFor (id ∷ rest) [] = ⊥

    abbrev pub Writes : List TokenId → Cache → Type 0
    Writes list cache =
        (es : List (TokenNum × TokenStats)) × (cache' : Cache) × ((write_stats_of op ids t s list
              cache
            ≡ ok (map put_stats es, cache'))
          × AreFor list es)

    pub write_stats_of-Writes :
        (list : List TokenId) (cache : Cache)
        → Agrees ids cache t t'
        → All (HasTokenNum ids t') list
        → Writes list cache
    unfolding write_stats_of Looks
    write_stats_of-Writes [] cache a h = ([], cache, (refl, tt))
    write_stats_of-Writes (id ∷ list) cache a ((n, e), h) =
        let (mid, (looked, a')) = looks id cache a (n, e) in
        let (es, last, (put_es, are)) = write_stats_of-Writes list mid a' h in
        ((n, new_stats id n) ∷ es, last, (rw (looked, e, put_es), (e, (refl, are))))
      where
        looks :
            (id : TokenId) (cache : Cache)
            → Agrees ids cache t t'
            → HasTokenNum ids t' id
            → Looks ids t t' v id cache
        looks id cache a k = get_token_num-Looks ids t t' v id cache a (inr k)

    same_id :
        (id k : TokenId) (n : TokenNum)
        → t'.token_num_by_id id ≡ some n
        → t'.token_num_by_id k ≡ some n
        → id ≡ k
    same_id id k n e e' = some_same (sym (v.id_of_num n id e) ∙ v.id_of_num n k e')

    same_stats : (id k : TokenId) (n j : TokenNum) → id ≡ k → n ≡ j → new_stats k j ≡ new_stats id n
    same_stats id k n j p q = λ i. new_stats (sym p i) (sym q i)

    -- The statistics of a token that is listed are new; any other keeps what it has.
    pub stats-puts :
        (list : List TokenId) (es : List (TokenNum × TokenStats)) (id : TokenId) (n : TokenNum)
        (m : HashMap TokenNum TokenStats)
        → AreFor list es
        → t'.token_num_by_id id ≡ some n
        → puts es m n ≡ (if any (nat_eq id) list then some (new_stats id n) else m n)
    stats-puts [] [] id n m are h = refl
    stats-puts [] (e ∷ es) id n m are h = absurd are
    stats-puts (k ∷ list) [] id n m are h = absurd are
    stats-puts (k ∷ list) (e ∷ es) id n m are h =
        stats-puts list es id n (written (put e.0 e.1) m) are.1.1 h
        ∙ pick id k n e.0 e.1 (new_stats id n) (any (nat_eq id) list) (m n)
            (λ p. some_same (sym h ∙ ap t'.token_num_by_id p ∙ are.0))
            (λ p. same_id id k e.0 (h ∙ ap some p) are.0)
            (λ p.
              are.1.0
              ∙ same_stats id k n e.0 p (some_same (sym h ∙ ap t'.token_num_by_id p ∙ are.0)))
