-- ===== src/SlpIndex/Numbering.antt =====
-- New tokens get the next numbers, and the columns by number and by ID stay inverse to each other.
use chronik.Prelude.{
  ℕ, ◌+◌, ◌≡◌, ◌≢◌, ◌≤◌, ◌<◌, refl, ◌∙◌, none, some, List, [], ◌∷◌, All, enumerate, nat_eq_iff,
  Option-cases, inl, inr, arith,
}
use chronik.Std.Ord.{==_iff, nat_ord}
use chronik.Std.HashMap
use chronik.Std.HashMap.{is_some}
use chronik.Std.Keyed.{or_else}
use chronik.Slp.{TokenId, SlpValidTxData}
use chronik.Column.{Column, put}
use chronik.SlpIndex.Entry.{TokenNum, null_token_id}
use chronik.SlpIndex.Tables.{SlpTables, commit}
use chronik.SlpIndex.Numbers.{
  Cache, genesis_tokens, token_writes, number_tokens, get_next_token_num, insert_new_tokens,
}

abbrev pub Token : Type 0
Token = TokenId × ℕ

module _ (ids : Column TokenId) where
  -- The columns of the tokens fit together.
  pub record IsNumbered (t : SlpTables ids) : Type 0 where
    pub num_of_id :
        (n : TokenNum) (id : TokenId)
        → ids.get t.token_id_by_num n ≡ some id
        → t.token_num_by_id id ≡ some n
    pub id_of_num :
        (n : TokenNum) (id : TokenId)
        → t.token_num_by_id id ≡ some n
        → ids.get t.token_id_by_num n ≡ some id
    pub null_has_none : t.token_num_by_id null_token_id ≡ none

  abbrev pub IsFreeFrom : TokenNum → SlpTables ids → Type 0
  IsFreeFrom next t = (n : TokenNum) → next ≤ n → ids.get t.token_id_by_num n ≡ none

  -- Tokens that are not in the table, each once.
  abbrev pub AreNew : SlpTables ids → List Token → Type 0
  AreNew t [] = Unit
  AreNew t ((id, info) ∷ tokens) =
      (id ≢ null_token_id)
      × ((t.token_num_by_id id ≡ none) × (All (λ r. r.0 ≢ id) tokens × AreNew t tokens))

  -- What the three columns hold of a token.
  abbrev pub IsNamed : SlpTables ids → TokenNum × Token → Type 0
  IsNamed t (n, (id, info)) =
      (ids.get t.token_id_by_num n ≡ some id)
      × ((t.token_num_by_id id ≡ some n) × (t.token_metadata n ≡ some info))

  abbrev pub with_token : TokenNum → Token → SlpTables ids → SlpTables ids
  with_token n (id, info) t = commit ids (token_writes n (id, info)) t

  get_next_token_num-IsFreeFrom : (t : SlpTables ids) → IsFreeFrom (get_next_token_num ids t) t
  unfolding get_next_token_num
  get_next_token_num-IsFreeFrom t n h = elim (Option-cases (ids.last t.token_id_by_num)) [
    | inl e ↦ ids.last_none t.token_id_by_num e n
    | inr (item, e) ↦ (ids.last_some t.token_id_by_num item.0 item.1 e).1 n (ground (arith, h, e))
  ]

  with_token-IsNumbered :
      (n : TokenNum) (id : TokenId) (info : ℕ) (t : SlpTables ids)
      → IsNumbered t
      → IsFreeFrom n t
      → id ≢ null_token_id
      → t.token_num_by_id id ≡ none
      → IsNumbered (with_token n (id, info) t)
  unfolding commit
  with_token-IsNumbered n id info t v free not_null fresh = record {
    num_of_id = λ m j h. ground (
      arith,
      ids.get_write (put n id) t.token_id_by_num m,
      v.num_of_id m j,
      nat_eq_iff m n,
      nat_eq_iff j id,
      h,
    );
    id_of_num = λ m j h. ground (
      arith,
      ids.get_write (put n id) t.token_id_by_num m,
      v.id_of_num m j,
      nat_eq_iff m n,
      nat_eq_iff j id,
      free n,
      h,
    );
    null_has_none = ground (arith, v.null_has_none, not_null, nat_eq_iff null_token_id id);
  }

  with_token-IsFreeFrom :
      (n : TokenNum) (token : Token) (t : SlpTables ids)
      → IsFreeFrom n t
      → IsFreeFrom (n + 1) (with_token n token t)
  unfolding commit
  with_token-IsFreeFrom n (id, info) t free m h =
      ground (arith, ids.get_write (put n id) t.token_id_by_num m, free m, nat_eq_iff m n)

  with_token-AreNew :
      (n : TokenNum) (id : TokenId) (info : ℕ) (t : SlpTables ids) (tokens : List Token)
      → All (λ r. r.0 ≢ id) tokens
      → AreNew t tokens
      → AreNew (with_token n (id, info) t) tokens
  unfolding commit
  with_token-AreNew n id info t [] d h = tt
  with_token-AreNew n id info t ((j, x) ∷ tokens) d h = (
    h.0,
    (
      ground (arith, d.0, h.1.0, nat_eq_iff j id),
      (h.1.1.0, with_token-AreNew n id info t tokens d.1 h.1.1.1),
    ),
  )

  -- Later numbers and other IDs leave what is stored.
  number_tokens-keeps :
      (tokens : List Token) (n : TokenNum) (cache : Cache) (t : SlpTables ids) (m : TokenNum)
      (id : TokenId)
      → m < n
      → All (λ r. r.0 ≢ id) tokens
      → (ids.get (commit ids (number_tokens n cache tokens).0 t).token_id_by_num m
          ≡ ids.get t.token_id_by_num m)
        × (((commit ids (number_tokens n cache tokens).0 t).token_num_by_id id
              ≡ t.token_num_by_id id)
            × ((commit ids (number_tokens n cache tokens).0 t).token_metadata m
                ≡ t.token_metadata m))
  unfolding number_tokens commit
  number_tokens-keeps [] n cache t m id h d = (refl, (refl, refl))
  number_tokens-keeps ((j, x) ∷ tokens) n cache t m id h d =
      let ih =
        number_tokens-keeps tokens (n + 1) (HashMap.insert j n cache) (with_token n (j, x) t) m id
          (omega arith) d.1 in
      (
        ih.0 ∙ ground (arith, ids.get_write (put n j) t.token_id_by_num m, nat_eq_iff m n, h),
        (ih.1.0 ∙ ground (arith, d.0, nat_eq_iff id j), ih.1.1 ∙ ground (arith, nat_eq_iff m n, h)),
      )

  number_tokens-IsNumbered :
      (tokens : List Token) (n : TokenNum) (cache : Cache) (t : SlpTables ids)
      → IsNumbered t
      → IsFreeFrom n t
      → AreNew t tokens
      → IsNumbered (commit ids (number_tokens n cache tokens).0 t)
        × All (IsNamed (commit ids (number_tokens n cache tokens).0 t)) (enumerate n tokens)
  unfolding number_tokens commit
  number_tokens-IsNumbered [] n cache t v free new = (v, tt)
  number_tokens-IsNumbered ((id, info) ∷ tokens) n cache t v free new =
      let t' = with_token n (id, info) t in
      let ih =
        number_tokens-IsNumbered tokens (n + 1) (HashMap.insert id n cache) t'
          (with_token-IsNumbered n id info t v free new.0 new.1.0)
          (with_token-IsFreeFrom n (id, info) t free)
          (with_token-AreNew n id info t tokens new.1.1.0 new.1.1.1) in
      let kept =
        number_tokens-keeps tokens (n + 1) (HashMap.insert id n cache) t' n id (omega arith)
          new.1.1.0 in
      (
        ih.0,
        (
          (
            kept.0 ∙ ground (arith, ids.get_write (put n id) t.token_id_by_num n, nat_eq_iff n n),
            (
              kept.1.0 ∙ ground (arith, nat_eq_iff id id),
              kept.1.1 ∙ ground (arith, nat_eq_iff n n),
            ),
          ),
          ih.1,
        ),
      )

  -- The cache, and else the table as it was, have the numbers that are in the table.
  abbrev pub Agrees : Cache → SlpTables ids → SlpTables ids → Type 0
  Agrees cache t t' =
      (id : TokenId) → or_else (cache id) (t.token_num_by_id id) ≡ t'.token_num_by_id id

  number_tokens-Agrees :
      (tokens : List Token) (n : TokenNum) (cache : Cache) (t t' : SlpTables ids)
      → Agrees cache t t'
      → Agrees (number_tokens n cache tokens).1 t (commit ids (number_tokens n cache tokens).0 t')
  unfolding number_tokens commit
  number_tokens-Agrees [] n cache t t' a = a
  number_tokens-Agrees ((id, info) ∷ tokens) n cache t t' a =
      number_tokens-Agrees tokens (n + 1) (HashMap.insert id n cache) t (with_token n (id, info) t')
        (λ j. ground (arith, a j, ==_iff j id, nat_eq_iff j id))

  -- Tokens that are new get the numbers from the next one on, in their order. Their IDs, numbers and
  -- genesis information are stored under each other, and the two columns stay inverse to each other.
  pub insert_new_tokens-IsNumbered :
      (t : SlpTables ids) (slps : List SlpValidTxData)
      → IsNumbered t
      → AreNew t (genesis_tokens slps)
      → IsNumbered (commit ids (insert_new_tokens ids t slps).0 t)
        × All
            (IsNamed (commit ids (insert_new_tokens ids t slps).0 t))
            (enumerate (get_next_token_num ids t) (genesis_tokens slps))
  unfolding insert_new_tokens
  insert_new_tokens-IsNumbered t slps v new =
      number_tokens-IsNumbered (genesis_tokens slps) (get_next_token_num ids t) HashMap.empty t v
        (get_next_token_num-IsFreeFrom t) new

  pub insert_new_tokens-Agrees :
      (t : SlpTables ids) (slps : List SlpValidTxData)
      → Agrees (insert_new_tokens ids t slps).1 t (commit ids (insert_new_tokens ids t slps).0 t)
  unfolding insert_new_tokens
  insert_new_tokens-Agrees t slps =
      number_tokens-Agrees (genesis_tokens slps) (get_next_token_num ids t) HashMap.empty t t
        (λ id. refl)
