-- ===== src/SlpIndex/Entries.antt =====
-- An entry that is written for an SLP transaction is read back as the transaction.
use chronik.Prelude.{
  ℕ, pos, ◌^◌, ◌≡◌, ◌≢◌, ◌<◌, ◌⊎◌, refl, ap, ◌∙◌, sym, false, Option, none, some, List, [], ◌∷◌,
  map, All, nat_eq, nat_eq_iff, Option-cases, inl, inr, arith, if◌then◌else◌,
}
use chronik.Std.Ord.{==_iff, nat_ord}
use chronik.Std.HashMap
use chronik.Slp.{TokenId, TxNum, SlpToken, SlpTxData, SlpBurn}
use chronik.Column.{Column}
use chronik.SlpIndex.Entry.{
  TokenNum, SerSlpToken, SerSlpBurn, ok, traverse, SlpValues, null_token_id, from_token, to_token,
}
use chronik.SlpIndex.Tables.{SlpTables}
use chronik.SlpIndex.Reader.{get_token_id_by_token_num, read_token_id, read_group_id, read_burn}
use chronik.SlpIndex.Numbers.{Cache, get_token_num_by_token_id}
use chronik.SlpIndex.Numbering.{IsNumbered, Agrees}
use chronik.SlpIndex.Store.{find_token_num, find_group_num, ser_burn, ser_burns}

abbrev pub HasTokenNum : (ids : Column TokenId) → SlpTables ids → TokenId → Type 0
HasTokenNum ids t id = (n : TokenNum) × (t.token_num_by_id id ≡ some n)

-- The null token, or one that has a number.
abbrev pub IsKnown : (ids : Column TokenId) → SlpTables ids → TokenId → Type 0
IsKnown ids t id = (id ≡ null_token_id) ⊎ HasTokenNum ids t id

module _ (ids : Column TokenId) (t t' : SlpTables ids) (v : IsNumbered ids t') where
  -- A number is looked up in the table that is to be written, through the cache.
  unfoldable pub Looks : TokenId → Cache → Type 0
  Looks id cache =
      (cache' : Cache) × ((get_token_num_by_token_id ids t id cache
          ≡ ok (t'.token_num_by_id id, cache'))
        × Agrees ids cache' t t')

  pub get_token_num-Looks :
      (id : TokenId) (cache : Cache) → Agrees ids cache t t' → IsKnown ids t' id → Looks id cache
  unfolding get_token_num_by_token_id Looks
  get_token_num-Looks id cache a (inl e) =
      (cache, (ground (arith, e, v.null_has_none, nat_eq_iff id null_token_id), a))
  get_token_num-Looks id cache a (inr (n, e)) =
      let known : id ≢ null_token_id = λ z. absurd (not_null z) in
      elim (Option-cases (cache id)) [
        | inl fresh ↦
            let stored : t.token_num_by_id id ≡ some n = ground (arith, a id, fresh, e) in
            (
              HashMap.insert id n cache,
              (
                ground (arith, e, fresh, stored, known, nat_eq_iff id null_token_id),
                λ j. ground (arith, a j, e, ==_iff j id),
              ),
            )
        | inr (m, old) ↦
            (cache, (ground (arith, a id, old, e, known, nat_eq_iff id null_token_id), a))
      ]
    where
      not_null : id ≡ null_token_id → ⊥
      not_null z = ground (arith, sym e ∙ ap t'.token_num_by_id z ∙ v.null_has_none)

module _ (values : SlpValues) where
  -- A mint baton, or an amount of 64 bits.
  abbrev pub IsToken : SlpToken → Type 0
  IsToken token =
      (token ≡ values.mint_baton_token)
      ⊎ ((n : ℕ) × ((token ≡ record { amount = pos n; is_mint_baton = false }) × (n < 2 ^ 64)))

  to_token-from_token :
      (token : SlpToken)
      → IsToken token
      → (s : SerSlpToken) × ((from_token token ≡ ok s) × (to_token values s ≡ token))
  unfolding from_token to_token
  to_token-from_token token (inl e) =
      (SerSlpToken.mint_baton, (ground (arith, e, values.mint_baton_flag), sym e))
  to_token-from_token token (inr (n, (e, h))) =
      (SerSlpToken.amount n, (ground (arith, e, h), sym e))

  pub map-from_token :
      (tokens : List SlpToken)
      → All IsToken tokens
      → (ss : List SerSlpToken) × ((traverse from_token tokens ≡ ok ss)
          × (map (to_token values) ss ≡ tokens))
  map-from_token [] h = ([], (refl, refl))
  map-from_token (token ∷ tokens) h =
      let (s, (put_s, get_s)) = to_token-from_token token h.0 in
      let (ss, (put_ss, get_ss)) = map-from_token tokens h.1 in
      (s ∷ ss, (rw (put_s, put_ss), rw (get_s, get_ss)))

  module _ (ids : Column TokenId) (t' : SlpTables ids) where
    -- The number that is stored for the token of a transaction.
    abbrev pub stored_num : SlpTxData → Option TokenNum
    stored_num d =
        if nat_eq d.slp_token_type values.unknown_token_type
        then none
        else t'.token_num_by_id d.token_id

    abbrev pub IsTokenOf : SlpTxData → Type 0
    IsTokenOf d =
        ((d.slp_token_type ≡ values.unknown_token_type) × (d.token_id ≡ null_token_id))
        ⊎ ((d.slp_token_type ≢ values.unknown_token_type) × HasTokenNum ids t' d.token_id)

    abbrev pub IsGroup : Option TokenId → Type 0
    IsGroup none = Unit {0}
    IsGroup (some id) = HasTokenNum ids t' id

    abbrev pub group_num : Option TokenId → Option TokenNum
    group_num none = none
    group_num (some id) = t'.token_num_by_id id

    abbrev pub IsBurn : Option SlpBurn → Type 0
    IsBurn none = Unit {0}
    IsBurn (some b) = IsToken b.token × IsKnown ids t' b.token_id

  module _ (ids : Column TokenId) (t t' : SlpTables ids) (v : IsNumbered ids t') where
    read_known :
        (id : TokenId)
        → IsKnown ids t' id
        → read_token_id values ids t' (t'.token_num_by_id id) ≡ ok id
    unfolding get_token_id_by_token_num
    read_known id (inl e) = ground (arith, ap t'.token_num_by_id e ∙ v.null_has_none, e)
    read_known id (inr (n, e)) = ground (arith, e, v.id_of_num n id e)

    unfoldable pub FindsNum : TxNum → SlpTxData → Cache → Type 0
    FindsNum tx_num d cache =
        (cache' : Cache) × ((find_token_num values ids t tx_num d cache
            ≡ ok (stored_num ids t' d, cache'))
          × Agrees ids cache' t t')

    pub find_token_num-FindsNum :
        (tx_num : TxNum) (d : SlpTxData) (cache : Cache)
        → Agrees ids cache t t'
        → IsTokenOf ids t' d
        → FindsNum tx_num d cache
    unfolding FindsNum Looks
    find_token_num-FindsNum tx_num d cache a (inl (e, null)) =
        (cache, (ground (arith, nat_eq_iff d.slp_token_type values.unknown_token_type, e), a))
    find_token_num-FindsNum tx_num d cache a (inr (ne, (n, e))) =
        let (cache', (looked, a')) =
          get_token_num-Looks ids t t' v d.token_id cache a (inr (n, e)) in
        (
          cache',
          (
            ground (arith, nat_eq_iff d.slp_token_type values.unknown_token_type, ne, looked, e),
            a',
          ),
        )

    pub read_stored :
        (d : SlpTxData)
        → IsTokenOf ids t' d
        → read_token_id values ids t' (stored_num ids t' d) ≡ ok d.token_id
    read_stored d (inl (e, null)) =
        ground (arith, nat_eq_iff d.slp_token_type values.unknown_token_type, e, null)
    read_stored d (inr (ne, (n, e))) = ground (
      arith,
      nat_eq_iff d.slp_token_type values.unknown_token_type,
      ne,
      read_known d.token_id (inr (n, e)),
    )

    unfoldable pub FindsGroup : TxNum → Option TokenId → Cache → Type 0
    FindsGroup tx_num group cache =
        (cache' : Cache) × ((find_group_num values ids t tx_num group cache
            ≡ ok (group_num ids t' group, cache'))
          × (Agrees ids cache' t t'
              × (read_group_id values ids t' (group_num ids t' group) ≡ ok group)))

    pub find_group_num-FindsGroup :
        (tx_num : TxNum) (group : Option TokenId) (cache : Cache)
        → Agrees ids cache t t'
        → IsGroup ids t' group
        → FindsGroup tx_num group cache
    unfolding FindsGroup Looks get_token_id_by_token_num
    find_group_num-FindsGroup tx_num none cache a h = (cache, (refl, (a, refl)))
    find_group_num-FindsGroup tx_num (some id) cache a (n, e) =
        let (cache', (looked, a')) = get_token_num-Looks ids t t' v id cache a (inr (n, e)) in
        (cache', (ground (arith, looked, e), (a', ground (arith, e, v.id_of_num n id e))))

    abbrev KeepsBurn : Option SlpBurn → Cache → Type 0
    KeepsBurn b cache =
        (s : Option SerSlpBurn) × (cache' : Cache) × ((ser_burn values ids t b cache
            ≡ ok (s, cache'))
          × (Agrees ids cache' t t' × (read_burn values ids t' s ≡ ok b)))

    ser_burn-KeepsBurn :
        (b : Option SlpBurn) (cache : Cache)
        → Agrees ids cache t t'
        → IsBurn ids t' b
        → KeepsBurn b cache
    unfolding Looks
    ser_burn-KeepsBurn none cache a h = (none, cache, (refl, (a, refl)))
    ser_burn-KeepsBurn (some b) cache a (token, known) =
        let (cache', (looked, a')) = get_token_num-Looks ids t t' v b.token_id cache a known in
        let (s, (put_s, get_s)) = to_token-from_token b.token token in
        (
          some (record { token_id_num = t'.token_num_by_id b.token_id; token = s }),
          cache',
          (ground (arith, looked, put_s), (a', ground (arith, read_known b.token_id known, get_s))),
        )

    pub ser_burns-keep :
        (bs : List (Option SlpBurn)) (cache : Cache)
        → Agrees ids cache t t'
        → All (IsBurn ids t') bs
        → (ss : List (Option SerSlpBurn)) × (cache' : Cache) × ((ser_burns values ids t bs cache
              ≡ ok (ss, cache'))
            × (Agrees ids cache' t t' × (traverse (read_burn values ids t') ss ≡ ok bs)))
    ser_burns-keep [] cache a h = ([], cache, (refl, (a, refl)))
    ser_burns-keep (b ∷ bs) cache a h =
        let (s, mid, (put_s, (a', get_s))) = ser_burn-KeepsBurn b cache a h.0 in
        let (ss, last, (put_ss, (a'', get_ss))) = ser_burns-keep bs mid a' h.1 in
        (s ∷ ss, last, (rw (put_s, put_ss), (a'', rw (get_s, get_ss))))
