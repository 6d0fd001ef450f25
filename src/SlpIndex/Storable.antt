-- ===== src/SlpIndex/Storable.antt =====
-- What is asked of an SLP transaction for its entry to be read back, and that it is.
use chronik.Prelude.{
  ℕ, pos, ◌+◌, ◌^◌, ◌≡◌, ◌≢◌, ◌<◌, refl, List, [], ◌∷◌, All, enumerate, nat_eq_iff, inr, arith,
}
use chronik.Slp.{TokenId, TxNum, SlpTxType, SlpTxData, SlpValidTxData}
use chronik.Column.{Column}
use chronik.SlpIndex.Entry.{TokenNum, SerSlpTxEntry, ok, SlpValues, ser_tx_type}
use chronik.SlpIndex.Tables.{SlpTables}
use chronik.SlpIndex.Reader.{sum_amounts, token_by_token_num, read_tx_type, read_entry}
use chronik.SlpIndex.Numbers.{Cache, add_genesis, genesis_tokens}
use chronik.SlpIndex.Numbering.{IsNumbered, IsNamed, Agrees}
use chronik.SlpIndex.Store.{ser_entry}
use chronik.SlpIndex.Entries.{
  IsToken, IsTokenOf, IsGroup, IsBurn, stored_num, group_num, map-from_token,
  find_token_num-FindsNum, FindsNum, read_stored, find_group_num-FindsGroup, FindsGroup,
  ser_burns-keep,
}

module _ (values : SlpValues) (ids : Column TokenId) where
  -- What the type of a transaction asks of it: a GENESIS has a token type, the token of any other has a
  -- number (or the transaction has no token type and the null token), and the amount of a BURN is that
  -- of its inputs.
  abbrev pub IsOfType : SlpTables ids → SlpTxData → SlpTxType → Type 0
  IsOfType t d (SlpTxType.genesis info) = d.slp_token_type ≢ values.unknown_token_type
  IsOfType t d (SlpTxType.burn a) =
      IsTokenOf values ids t d × ((sum_amounts d.input_tokens ≡ pos a) × (a < 2 ^ 64))
  IsOfType t d SlpTxType.send = IsTokenOf values ids t d
  IsOfType t d SlpTxType.mint = IsTokenOf values ids t d
  IsOfType t d SlpTxType.unknown = IsTokenOf values ids t d

  pub record IsStorable (t : SlpTables ids) (slp : SlpValidTxData) : Type 0 where
    pub inputs : All (IsToken values) slp.slp_tx_data.input_tokens
    pub outputs : All (IsToken values) slp.slp_tx_data.output_tokens
    pub burns : All (IsBurn values ids t) slp.slp_burns
    pub group : IsGroup values ids t slp.slp_tx_data.group_token_id
    pub of_type : IsOfType t slp.slp_tx_data slp.slp_tx_data.slp_tx_type

  -- The token of a GENESIS is in the table.
  abbrev pub HasName : SlpTables ids → SlpTxData → SlpTxType → Type 0
  HasName t d (SlpTxType.genesis info) = (n : TokenNum) × IsNamed ids t (n, (d.token_id, info))
  HasName t d (SlpTxType.burn a) = Unit {0}
  HasName t d SlpTxType.send = Unit {0}
  HasName t d SlpTxType.mint = Unit {0}
  HasName t d SlpTxType.unknown = Unit {0}

  token_of :
      (t : SlpTables ids) (d : SlpTxData) (ty : SlpTxType)
      → IsOfType t d ty
      → HasName t d ty
      → IsTokenOf values ids t d
  token_of t d (SlpTxType.genesis info) ne (n, named) = inr (ne, (n, named.1.0))
  token_of t d (SlpTxType.burn a) h named = h.0
  token_of t d SlpTxType.send h named = h
  token_of t d SlpTxType.mint h named = h
  token_of t d SlpTxType.unknown h named = h

  read_type :
      (t : SlpTables ids) (tx_num : TxNum) (d : SlpTxData) (ty : SlpTxType)
      → IsOfType t d ty
      → HasName t d ty
      → read_tx_type values ids t tx_num (stored_num values ids t d) d.input_tokens (ser_tx_type ty)
        ≡ ok ty
  unfolding token_by_token_num
  read_type t tx_num d (SlpTxType.genesis info) ne (n, named) =
      ground
        (arith, nat_eq_iff d.slp_token_type values.unknown_token_type, ne, named.1.0, named.1.1)
  read_type t tx_num d (SlpTxType.burn a) h named = ground (arith, h.1.0, h.1.1)
  read_type t tx_num d SlpTxType.send h named = refl
  read_type t tx_num d SlpTxType.mint h named = refl
  read_type t tx_num d SlpTxType.unknown h named = refl

  name_of :
      (t : SlpTables ids) (d : SlpTxData) (ty : SlpTxType) (rest : List (TokenId × ℕ))
      (k : TokenNum)
      → All (IsNamed ids t) (enumerate k (add_genesis d.token_id ty rest))
      → HasName t d ty × ((k' : TokenNum) × All (IsNamed ids t) (enumerate k' rest))
  name_of t d (SlpTxType.genesis info) rest k h = ((k, h.0), (k + 1, h.1))
  name_of t d (SlpTxType.burn a) rest k h = (tt, (k, h))
  name_of t d SlpTxType.send rest k h = (tt, (k, h))
  name_of t d SlpTxType.mint rest k h = (tt, (k, h))
  name_of t d SlpTxType.unknown rest k h = (tt, (k, h))

  pub names_of :
      (t : SlpTables ids) (slps : List SlpValidTxData) (k : TokenNum)
      → All (IsNamed ids t) (enumerate k (genesis_tokens slps))
      → All (λ slp. HasName t slp.slp_tx_data slp.slp_tx_data.slp_tx_type) slps
  names_of t [] k h = tt
  names_of t (slp ∷ slps) k h =
      let d = slp.slp_tx_data in
      let (head, (k', rest)) = name_of t d d.slp_tx_type (genesis_tokens slps) k h in
      (head, names_of t slps k' rest)

  module _ (t t' : SlpTables ids) (v : IsNumbered ids t') where
    unfoldable pub Keeps : TxNum → SlpValidTxData → Cache → Type 0
    Keeps tx_num slp cache =
        (e : SerSlpTxEntry) × (cache' : Cache) × ((ser_entry values ids t tx_num slp cache
            ≡ ok (e, cache'))
          × (Agrees ids cache' t t' × (read_entry values ids t' tx_num e ≡ ok slp)))

    pub ser_entry-Keeps :
        (tx_num : TxNum) (slp : SlpValidTxData) (cache : Cache)
        → Agrees ids cache t t'
        → IsStorable t' slp
        → HasName t' slp.slp_tx_data slp.slp_tx_data.slp_tx_type
        → Keeps tx_num slp cache
    unfolding Keeps ser_entry read_entry FindsNum FindsGroup
    ser_entry-Keeps tx_num slp cache a h named =
        let d = slp.slp_tx_data in
        let token = token_of t' d d.slp_tx_type h.of_type named in
        let (c1, (e1, a1)) = find_token_num-FindsNum values ids t t' v tx_num d cache a token in
        let (c2, (e2, (a2, r2))) =
          find_group_num-FindsGroup values ids t t' v tx_num d.group_token_id c1 a1 h.group in
        let (bs, c3, (e3, (a3, r3))) =
          ser_burns-keep values ids t t' v slp.slp_burns c2 a2 h.burns in
        let (is, (e4, r4)) = map-from_token values d.input_tokens h.inputs in
        let (os, (e5, r5)) = map-from_token values d.output_tokens h.outputs in
        (
          record {
            input_tokens = is;
            output_tokens = os;
            slp_token_type = d.slp_token_type;
            slp_tx_type = ser_tx_type d.slp_tx_type;
            token_num = stored_num values ids t' d;
            group_token_num = group_num values ids t' d.group_token_id;
            slp_burns = bs;
          },
          c3,
          (
            rw (e1, e2, e3, e4, e5),
            (
              a3,
              rw (
                r3,
                r4,
                r5,
                read_type t' tx_num d d.slp_tx_type h.of_type named,
                read_stored values ids t t' v d token,
                r2,
              ),
            ),
          ),
        )
