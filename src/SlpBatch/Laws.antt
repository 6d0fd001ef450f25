-- ===== src/SlpBatch/Laws.antt =====
-- What the validation of one transaction writes, and what it keeps.
use chronik.Prelude.{
  ℕ, zero, suc, ◌<◌, get_elem?, length, ap, ◌∙◌, sym, Bool-cases, inl, inr, ◌≢◌, ◌≡◌, refl, Bool,
  true, false, Option, none, some, List, any, map, arith, if◌then◌else◌,
}
use chronik.Std.Ord.{◌==◌, ==_iff, ==_refl, nat_ord}
use chronik.Std.HashMap.{HashMap}
use chronik.Slp.{
  TxNum, TokenId, SlpToken, SlpValidTxData, SlpSpentOutput, Checked, valid, invalid, SlpLib,
  spent_output,
}
use chronik.Rounds.{Visit, wait, step}
use chronik.SlpBatch.{
  OutpointEntry, entry_ord, BatchSlpTx, BatchState, is_unknown, spent_at, burn_of, insert_outputs,
  record_verdict, verdict, inputs_of, validate_one, visit_slp,
}

other_outputs :
    (t : TxNum) (output : ℕ → Option SlpSpentOutput) (n : ℕ)
    (known : HashMap OutpointEntry (Option SlpSpentOutput)) (k : OutpointEntry)
    → (k.tx_num == t) ≡ false
    → insert_outputs t output n known k ≡ known k
other_outputs t output zero known k h = refl
other_outputs t output (suc n) known k h = ground (
  arith,
  other_outputs t output n known k h,
  ==_iff k (record { tx_num = t; out_idx = n }),
  ==_refl t,
)

-- The two states have the same outputs and verdicts for the transaction.
pub record SameAt (t : TxNum) (s s' : BatchState) : Type 0 where
  pub known :
      (k : OutpointEntry) → (k.tx_num == t) ≡ true → s'.known_slp_outputs k ≡ s.known_slp_outputs k
  pub valid_at : s'.valid_results t ≡ s.valid_results t
  pub invalid_at : s'.invalid_results t ≡ s.invalid_results t

-- The verdict, and only this one, is recorded for the transaction.
abbrev pub Recorded :
    TxNum → List (Option SlpSpentOutput) → Checked SlpValidTxData → BatchState → Type 0
Recorded t spent (valid v) s = (s.valid_results t ≡ some v) × (s.invalid_results t ≡ none)
Recorded t spent (invalid e) s =
    (s.valid_results t ≡ none)
    × (s.invalid_results t ≡ some (record { slp_burns = map burn_of spent; slp_error = e }))

-- The token of an output of a transaction: one that is listed, if the transaction is valid.
abbrev pub token_at : TokenId → ℕ → Option TokenId → Option SlpToken → Option SlpSpentOutput
token_at token_id token_type group none = none
token_at token_id token_type group (some token) =
    some (record {
      token_id = token_id;
      token_type = token_type;
      token = token;
      group_token_id = group;
    })

abbrev pub output_of : Checked SlpValidTxData → ℕ → Option SlpSpentOutput
output_of (valid v) i =
    token_at v.slp_tx_data.token_id v.slp_tx_data.slp_token_type v.slp_tx_data.group_token_id
      (get_elem? v.slp_tx_data.output_tokens i)
output_of (invalid e) i = none

-- The outputs of the transaction are known, with the tokens that its verdict gives them.
abbrev pub KnownAs : TxNum → ℕ → Checked SlpValidTxData → BatchState → Type 0
KnownAs t n c s =
    (i : ℕ)
    → i < n
    → s.known_slp_outputs (record { tx_num = t; out_idx = i }) ≡ some (output_of c i)

abbrev pub output : TxNum → ℕ → OutpointEntry
output t i = record { tx_num = t; out_idx = i }

pub less_of : (t : TxNum) (i n : ℕ) → i < suc n → (output t i == output t n) ≡ false → i < n
less_of t i n h ne = omega (arith, different)
  where
    different : i ≢ n
    different e = ground (arith, ne, (==_iff (output t i) (output t n)).1 (ap (output t) e))

inserted_output :
    (t : TxNum) (output : ℕ → Option SlpSpentOutput) (n : ℕ)
    (known : HashMap OutpointEntry (Option SlpSpentOutput)) (i : ℕ)
    → i < n
    → insert_outputs t output n known (record { tx_num = t; out_idx = i }) ≡ some (output i)
inserted_output t out zero known i h = absurd (omega arith)
inserted_output t out (suc n) known i h = elim (Bool-cases (output t i == output t n)) [
  | inl e ↦ rw e (ap (λ o. some (out o.out_idx)) (sym ((==_iff (output t i) (output t n)).0 e)))
  | inr ne ↦ rw ne (inserted_output t out n known i (less_of t i n h ne))
]

spent_output_lem :
    (v : SlpValidTxData) (i : ℕ) → spent_output v.slp_tx_data i ≡ output_of (valid v) i
spent_output_lem v i = ground arith

module _ (t : TxNum) (n : ℕ) (spent : List (Option SlpSpentOutput)) (s : BatchState) where
  record_verdict-SameAt :
      (c : Checked SlpValidTxData) (j : TxNum)
      → (j == t) ≡ false
      → SameAt j s (record_verdict t n spent c s)
  unfolding record_verdict
  record_verdict-SameAt (valid v) j h = record {
    known = λ k e.
        other_outputs t (spent_output v.slp_tx_data) n s.known_slp_outputs k
          (ground (arith, ==_iff k.tx_num j, h));
    valid_at = rw h;
    invalid_at = refl;
  }
  record_verdict-SameAt (invalid e) j h = record {
    known = λ k q.
        other_outputs t (λ _. none) n s.known_slp_outputs k (ground (arith, ==_iff k.tx_num j, h));
    valid_at = refl;
    invalid_at = rw h;
  }

  record_verdict-Recorded :
      (c : Checked SlpValidTxData)
      → s.valid_results t ≡ none
      → s.invalid_results t ≡ none
      → Recorded t spent c (record_verdict t n spent c s)
  unfolding record_verdict
  record_verdict-Recorded (valid v) hv hi = (rw (==_refl t), hi)
  record_verdict-Recorded (invalid e) hv hi = (hv, rw (==_refl t))

  record_verdict-KnownAs :
      (c : Checked SlpValidTxData) → KnownAs t n c (record_verdict t n spent c s)
  unfolding record_verdict
  record_verdict-KnownAs (valid v) i h =
      inserted_output t (spent_output v.slp_tx_data) n s.known_slp_outputs i h
      ∙ ap some (spent_output_lem v i)
  record_verdict-KnownAs (invalid e) i h = inserted_output t (λ _. none) n s.known_slp_outputs i h

module _ (lib : SlpLib) (t : TxNum) (b : BatchSlpTx lib.SlpParseData) (s : BatchState) where
  pub validate_one-SameAt : (j : TxNum) → (j == t) ≡ false → SameAt j s (validate_one lib t b s)
  unfolding validate_one
  validate_one-SameAt = record_verdict-SameAt t _ _ s _

  pub validate_one-Recorded :
      s.valid_results t ≡ none
      → s.invalid_results t ≡ none
      → Recorded t (map (spent_at s) (inputs_of b)) (verdict lib b s) (validate_one lib t b s)
  unfolding validate_one
  validate_one-Recorded = record_verdict-Recorded t _ _ s _

  pub validate_one-KnownAs :
      KnownAs t (length b.tx.outputs) (verdict lib b s) (validate_one lib t b s)
  unfolding validate_one
  validate_one-KnownAs = record_verdict-KnownAs t _ _ s _

  -- A transaction that is visited with success has all its parents decided.
  pub visit_slp-step :
      {E : Type 0} (in_batch : TxNum → Bool) (s' : BatchState)
      → ◌≡◌ {A = Visit E BatchState} (visit_slp lib in_batch (t, b) s) (step s')
      → (any (is_unknown in_batch s) (inputs_of b) ≡ false) × (validate_one lib t b s ≡ s')
  unfolding visit_slp
  visit_slp-step {E} in_batch s' h = by_test (any (is_unknown in_batch s) (inputs_of b)) h
    where
      by_test :
          (w : Bool)
          → ◌≡◌ {A = Visit E BatchState}
              (if w then wait else step (validate_one lib t b s))
              (step s')
          → (w ≡ false) × (validate_one lib t b s ≡ s')
      by_test true h = cc
      by_test false h = (refl, cc h)
