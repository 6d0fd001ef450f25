-- ===== src/BlockStats/Laws.antt =====
-- The statistics of a block against the sums over all its inputs and outputs.
use chronik.Prelude.{
  ℕ, ◌+◌, ◌≡◌, refl, ◌∙◌, sym, subst, ap, ℤ, pos, ◌+ℤ◌, +ℤ_assoc, +ℤ_comm, +ℤ_zero, zero_+ℤ, Bool,
  true, false, not, Bool-cases, inl, inr, map, enumerate, tail, ◌<◌, ◌^◌, ◌-◌, ◌%◌, Option, none,
  some, List, [], ◌∷◌, ◌++◌, map-append, length, length-append, concat_map, arith, if◌then◌else◌,
}
use chronik.Chain.{OutPoint, TxInput, TxOutput, UnhashedTx}
use chronik.ScriptPayload.{ScriptLib}
use chronik.Txs.{TxEntry, BlockTxs}
use chronik.Blocks.{Block}
use chronik.BlockStats.{
  BlockStats, Sums, sum_sizes, input_values, sum_sats, values, burned, add_tx, and_then_sums,
  add_txs, stats_of, block_stats,
}

sum_sats-append : (xs ys : List ℤ) → sum_sats (xs ++ ys) ≡ sum_sats xs +ℤ sum_sats ys
sum_sats-append [] ys = sym (zero_+ℤ (sum_sats ys))
sum_sats-append (x ∷ xs) ys =
    ap (λ r. x +ℤ r) (sum_sats-append xs ys) ∙ sym (+ℤ_assoc x (sum_sats xs) (sum_sats ys))

burned-append :
    (p : TxOutput → Bool) (xs ys : List TxOutput) → burned p (xs ++ ys) ≡ burned p xs ++ burned p ys
burned-append p [] ys = refl
burned-append p (x ∷ xs) ys = ground (arith, burned-append p xs ys)

abbrev pub all_inputs : List UnhashedTx → List TxInput
all_inputs = concat_map (λ tx. tx.inputs)

abbrev pub all_outputs : List UnhashedTx → List TxOutput
all_outputs = concat_map (λ tx. tx.outputs)

-- The sum of what the inputs of a transaction at a position spend, from an input on; and of those of
-- the transactions from a position on.
module _ (spent : ℕ → ℕ → TxOutput) where
  abbrev pub tx_input_sats : ℕ → ℕ → List TxInput → ℤ
  tx_input_sats tx_pos n [] = pos 0
  tx_input_sats tx_pos n (input ∷ inputs) =
      (spent tx_pos n).value +ℤ tx_input_sats tx_pos (n + 1) inputs

  abbrev pub all_input_sats : ℕ → List UnhashedTx → ℤ
  all_input_sats tx_pos [] = pos 0
  all_input_sats tx_pos (tx ∷ txs) =
      tx_input_sats tx_pos 0 tx.inputs +ℤ all_input_sats (tx_pos + 1) txs

abbrev pub first_is : (OutPoint → Bool) → Bool → List TxInput → Bool
first_is is_coinbase b [] = false
first_is is_coinbase true (input ∷ inputs) = is_coinbase input.prev_out
first_is is_coinbase false (input ∷ inputs) = not (is_coinbase input.prev_out)

-- The transactions whose first input is a coinbase, or is none.
abbrev pub with_coinbase : (OutPoint → Bool) → Bool → List UnhashedTx → List UnhashedTx
with_coinbase is_coinbase b [] = []
with_coinbase is_coinbase b (tx ∷ txs) =
    let rest = with_coinbase is_coinbase b txs in
    if first_is is_coinbase b tx.inputs then tx ∷ rest else rest

-- Where the first transaction stands.
abbrev pub first_pos : List TxEntry → ℕ
first_pos [] = 0
first_pos (entry ∷ entries) = entry.data_pos

header_size :
    (header at first : ℕ)
    → header + at ≡ first
    → header < 2 ^ 32
    → (first + 2 ^ 32 - at) % 2 ^ 32 ≡ header
header_size header at first e small = omega (arith, e, small)

plus_zero : (n : ℕ) → 0 + n ≡ n
plus_zero n = omega arith

some_same : {A : Type 0} {a b : A} → some a ≡ some b → a ≡ b
some_same h = ground (arith, h)

and_then_sums-some :
    (f : Sums → Option Sums) (o : Option Sums) (u : Sums)
    → and_then_sums f o ≡ some u
    → (t : Sums) × (o ≡ some t) × (f t ≡ some u)
and_then_sums-some f none u h = ground (arith, h)
and_then_sums-some f (some t) u h = (t, refl, h)

module _ (lib : ScriptLib) (is_coinbase : OutPoint → Bool) where
  abbrev pub is_burned : TxOutput → Bool
  is_burned output = lib.is_opreturn output.script

  -- What the loop has added.
  record Added (t u : Sums) (inputs : List TxInput) (outputs coinbase normal : List TxOutput)
      : Type 0 where
    num_inputs : u.num_inputs ≡ t.num_inputs + length inputs
    num_outputs : u.num_outputs ≡ t.num_outputs + length outputs
    sats :
        u.sum_coinbase_output_sats +ℤ u.sum_normal_output_sats
        ≡ t.sum_coinbase_output_sats +ℤ t.sum_normal_output_sats +ℤ sum_sats (values outputs)
    sum_coinbase :
        u.sum_coinbase_output_sats ≡ t.sum_coinbase_output_sats +ℤ sum_sats (values coinbase)
    sum_normal : u.sum_normal_output_sats ≡ t.sum_normal_output_sats +ℤ sum_sats (values normal)
    sum_burned :
        u.sum_burned_sats ≡ t.sum_burned_sats +ℤ sum_sats (values (burned is_burned outputs))

  split_sats :
      (b : Bool) (c n sats : ℤ)
      → (if b then c +ℤ sats else c) +ℤ (if b then n else n +ℤ sats) ≡ c +ℤ n +ℤ sats
  split_sats true c n sats =
      +ℤ_assoc c sats n ∙ ap (λ r. c +ℤ r) (+ℤ_comm sats n) ∙ sym (+ℤ_assoc c n sats)
  split_sats false c n sats = sym (+ℤ_assoc c n sats)

  -- The outputs of a transaction, if its first input is a coinbase, or if it is none.
  abbrev picked : Bool → List TxInput → List TxOutput → List TxOutput
  picked b inputs outputs = if first_is is_coinbase b inputs then outputs else []

  picked-all :
      (b : Bool) (tx : UnhashedTx) (txs : List UnhashedTx)
      → all_outputs (with_coinbase is_coinbase b (tx ∷ txs))
        ≡ picked b tx.inputs tx.outputs ++ all_outputs (with_coinbase is_coinbase b txs)
  picked-all b tx txs = elim (Bool-cases (first_is is_coinbase b tx.inputs)) [
    | inl e ↦ rw e
    | inr e ↦ rw e
  ]

  coinbase_sats :
      (b : Bool) (c : ℤ) (outputs : List TxOutput)
      → (if b then c +ℤ sum_sats (values outputs) else c)
        ≡ c +ℤ sum_sats (values (if b then outputs else []))
  coinbase_sats true c outputs = refl
  coinbase_sats false c outputs = sym (+ℤ_zero c)

  normal_sats :
      (b : Bool) (n : ℤ) (outputs : List TxOutput)
      → (if b then n else n +ℤ sum_sats (values outputs))
        ≡ n +ℤ sum_sats (values (if not b then outputs else []))
  normal_sats true n outputs = sym (+ℤ_zero n)
  normal_sats false n outputs = refl

  add_tx-Added :
      (t u : Sums) (tx : UnhashedTx) (inputs : List TxInput)
      → add_tx lib is_coinbase t tx inputs ≡ some u
      → Added t u tx.inputs tx.outputs
          (picked true inputs tx.outputs)
          (picked false inputs tx.outputs)
  add_tx-Added t u tx [] h = ground (arith, h)
  add_tx-Added t u tx (input ∷ inputs) h =
      subst
        (λ r.
          Added t r tx.inputs tx.outputs (picked true (input ∷ inputs) tx.outputs)
            (picked false (input ∷ inputs) tx.outputs))
        (some_same h)
        (record {
          num_inputs = refl;
          num_outputs = refl;
          sats =
              split_sats (is_coinbase input.prev_out) t.sum_coinbase_output_sats
                t.sum_normal_output_sats (sum_sats (values tx.outputs));
          sum_coinbase =
              coinbase_sats (is_coinbase input.prev_out) t.sum_coinbase_output_sats tx.outputs;
          sum_normal = normal_sats (is_coinbase input.prev_out) t.sum_normal_output_sats tx.outputs;
          sum_burned = refl;
        })

  join_sats : (a : ℤ) (xs ys : List ℤ) → a +ℤ sum_sats xs +ℤ sum_sats ys ≡ a +ℤ sum_sats (xs ++ ys)
  join_sats a xs ys =
      +ℤ_assoc a (sum_sats xs) (sum_sats ys) ∙ ap (λ r. a +ℤ r) (sym (sum_sats-append xs ys))

  joined :
      (a b c : ℤ) (xs ys : List TxOutput)
      → b ≡ a +ℤ sum_sats (values xs)
      → c ≡ b +ℤ sum_sats (values ys)
      → c ≡ a +ℤ sum_sats (values (xs ++ ys))
  joined a b c xs ys e e' =
      e'
      ∙ ap (λ r. r +ℤ sum_sats (values ys)) e
      ∙ join_sats a (values xs) (values ys)
      ∙ ap (λ r. a +ℤ sum_sats r) (sym (map-append (λ o. o.value) xs ys))

  Added-append :
      (t u v : Sums) (is js : List TxInput) (xs ys cs ds ns ms : List TxOutput)
      → Added t u is xs cs ns
      → Added u v js ys ds ms
      → Added t v (is ++ js) (xs ++ ys) (cs ++ ds) (ns ++ ms)
  Added-append t u v is js xs ys cs ds ns ms a b = record {
    num_inputs = ground (arith, a.num_inputs, b.num_inputs, length-append is js);
    num_outputs = ground (arith, a.num_outputs, b.num_outputs, length-append xs ys);
    sats =
        joined (t.sum_coinbase_output_sats +ℤ t.sum_normal_output_sats)
          (u.sum_coinbase_output_sats +ℤ u.sum_normal_output_sats)
          (v.sum_coinbase_output_sats +ℤ v.sum_normal_output_sats) xs ys a.sats b.sats;
    sum_coinbase =
        joined t.sum_coinbase_output_sats u.sum_coinbase_output_sats v.sum_coinbase_output_sats cs
          ds a.sum_coinbase b.sum_coinbase;
    sum_normal =
        joined t.sum_normal_output_sats u.sum_normal_output_sats v.sum_normal_output_sats ns ms
          a.sum_normal b.sum_normal;
    sum_burned =
        joined t.sum_burned_sats u.sum_burned_sats v.sum_burned_sats (burned is_burned xs)
          (burned is_burned ys) a.sum_burned b.sum_burned
        ∙ ap (λ r. t.sum_burned_sats +ℤ sum_sats (values r)) (sym (burned-append is_burned xs ys));
  }

  add_txs-Added :
      (txs : List UnhashedTx) (t u : Sums)
      → add_txs lib is_coinbase txs t ≡ some u
      → Added t u
          (all_inputs txs)
          (all_outputs txs)
          (all_outputs (with_coinbase is_coinbase true txs))
          (all_outputs (with_coinbase is_coinbase false txs))
  unfolding add_txs
  add_txs-Added [] t u h =
      subst (λ r. Added t r [] [] [] []) (some_same h)
        (record {
          num_inputs = omega arith;
          num_outputs = omega arith;
          sats = sym (+ℤ_zero (t.sum_coinbase_output_sats +ℤ t.sum_normal_output_sats));
          sum_coinbase = sym (+ℤ_zero t.sum_coinbase_output_sats);
          sum_normal = sym (+ℤ_zero t.sum_normal_output_sats);
          sum_burned = sym (+ℤ_zero t.sum_burned_sats);
        })
  add_txs-Added (tx ∷ txs) t u h =
      let (mid, first, rest) =
        and_then_sums-some (add_txs lib is_coinbase txs) (add_tx lib is_coinbase t tx tx.inputs) u
          h in
      subst
        (λ (r : List TxOutput × List TxOutput).
          Added t u (tx.inputs ++ all_inputs txs) (tx.outputs ++ all_outputs txs) r.0 r.1)
        (λ k. (sym (picked-all true tx txs) k, sym (picked-all false tx txs) k))
        (Added-append t mid u tx.inputs (all_inputs txs) tx.outputs (all_outputs txs)
          (picked true tx.inputs tx.outputs) (all_outputs (with_coinbase is_coinbase true txs))
          (picked false tx.inputs tx.outputs) (all_outputs (with_coinbase is_coinbase false txs))
          (add_tx-Added t mid tx tx.inputs first) (add_txs-Added txs mid u rest))

  start : Sums
  start = record {
    num_inputs = 0;
    num_outputs = 0;
    sum_coinbase_output_sats = pos 0;
    sum_normal_output_sats = pos 0;
    sum_burned_sats = pos 0;
  }

  spent_sats-tx :
      (spent : ℕ → ℕ → TxOutput) (tx_pos n : ℕ) (inputs : List TxInput)
      → sum_sats (map (λ item. (spent tx_pos item.0).value) (enumerate n inputs))
        ≡ tx_input_sats spent tx_pos n inputs
  spent_sats-tx spent tx_pos n [] = refl
  spent_sats-tx spent tx_pos n (input ∷ inputs) =
      ap (λ r. (spent tx_pos n).value +ℤ r) (spent_sats-tx spent tx_pos (n + 1) inputs)

  spent_sats-txs :
      (spent : ℕ → ℕ → TxOutput) (tx_pos : ℕ) (txs : List UnhashedTx)
      → sum_sats (concat_map (input_values lib is_coinbase spent) (enumerate tx_pos txs))
        ≡ all_input_sats spent tx_pos txs
  spent_sats-txs spent tx_pos [] = refl
  spent_sats-txs spent tx_pos (tx ∷ txs) =
      sum_sats-append (input_values lib is_coinbase spent (tx_pos, tx))
        (concat_map (input_values lib is_coinbase spent) (enumerate (tx_pos + 1) txs))
      ∙ ap
          (λ r.
            r
            +ℤ sum_sats
                (concat_map (input_values lib is_coinbase spent) (enumerate (tx_pos + 1) txs)))
          (spent_sats-tx spent tx_pos 0 tx.inputs)
      ∙ ap (λ r. tx_input_sats spent tx_pos 0 tx.inputs +ℤ r)
          (spent_sats-txs spent (tx_pos + 1) txs)

  -- The statistics of a block, of its transactions and what stands before them.
  pub record AreTotals (header : ℕ) (txs : List UnhashedTx) (entries : List TxEntry)
      (spent : ℕ → ℕ → TxOutput) (st : BlockStats) : Type 0 where
    pub num_txs : st.num_txs ≡ length txs
    pub num_inputs : st.num_inputs ≡ length (all_inputs txs)
    pub num_outputs : st.num_outputs ≡ length (all_outputs txs)
    pub input_sats : st.sum_input_sats ≡ all_input_sats spent 0 (tail txs)
    pub coinbase_outputs :
        st.sum_coinbase_output_sats
        ≡ sum_sats (values (all_outputs (with_coinbase is_coinbase true txs)))
    pub normal_outputs :
        st.sum_normal_output_sats
        ≡ sum_sats (values (all_outputs (with_coinbase is_coinbase false txs)))
    pub output_sats :
        st.sum_coinbase_output_sats +ℤ st.sum_normal_output_sats
        ≡ sum_sats (values (all_outputs txs))
    pub burned_sats : st.sum_burned_sats ≡ sum_sats (values (burned is_burned (all_outputs txs)))
    pub size : st.block_size ≡ header + sum_sizes entries

  AreTotals-stats_of :
      (header : ℕ) (block : Block) (txs : List UnhashedTx) (spent : ℕ → ℕ → TxOutput)
      (entries : List TxEntry) (o : Option Sums) (st : BlockStats)
      → ((t : Sums)
          → o ≡ some t
          → Added start t
              (all_inputs txs)
              (all_outputs txs)
              (all_outputs (with_coinbase is_coinbase true txs))
              (all_outputs (with_coinbase is_coinbase false txs)))
      → stats_of lib is_coinbase block txs spent entries o ≡ some st
      → header + block.data_pos ≡ first_pos entries
      → header < 2 ^ 32
      → AreTotals header txs entries spent st
  unfolding start
  AreTotals-stats_of header block txs spent [] o st loop h e small = ground (arith, h)
  AreTotals-stats_of header block txs spent (entry ∷ entries) none st loop h e small =
      ground (arith, h)
  AreTotals-stats_of header block txs spent (entry ∷ entries) (some t) st loop h e small =
      let added = loop t refl in
      subst (AreTotals header txs (entry ∷ entries) spent) (some_same h) (record {
        num_txs = refl;
        num_inputs = added.num_inputs ∙ plus_zero (length (all_inputs txs));
        num_outputs = added.num_outputs ∙ plus_zero (length (all_outputs txs));
        input_sats = spent_sats-txs spent 0 (tail txs);
        coinbase_outputs =
            added.sum_coinbase
            ∙ zero_+ℤ (sum_sats (values (all_outputs (with_coinbase is_coinbase true txs))));
        normal_outputs =
            added.sum_normal
            ∙ zero_+ℤ (sum_sats (values (all_outputs (with_coinbase is_coinbase false txs))));
        output_sats =
            added.sats
            ∙ ap (λ r. r +ℤ sum_sats (values (all_outputs txs))) (+ℤ_zero (pos 0))
            ∙ zero_+ℤ (sum_sats (values (all_outputs txs)));
        burned_sats =
            added.sum_burned ∙ zero_+ℤ (sum_sats (values (burned is_burned (all_outputs txs))));
        size =
            ap (λ n. n + sum_sizes (entry ∷ entries))
              (header_size header block.data_pos entry.data_pos e small);
      })

  -- The statistics of a block are its totals: the numbers of its transactions, inputs and outputs; the
  -- sum of what all inputs but the first transaction's spend; the sums of the outputs of the
  -- transactions whose first input is a coinbase, of those of the others, of all of both, and of the
  -- OP_RETURN outputs; and the sizes of the header and of the transactions, where the first transaction
  -- stands behind the header in the file of blocks, and the header has fewer than 2^32 bytes.
  pub block_stats-totals :
      (block : Block) (txs : List UnhashedTx) (block_txs : BlockTxs) (spent : ℕ → ℕ → TxOutput)
      (st : BlockStats) (header : ℕ)
      → block_stats lib is_coinbase block txs block_txs spent ≡ some st
      → header + block.data_pos ≡ first_pos block_txs.txs
      → header < 2 ^ 32
      → AreTotals header txs block_txs.txs spent st
  unfolding block_stats start
  block_stats-totals block txs block_txs spent st header h =
      AreTotals-stats_of header block txs spent block_txs.txs (add_txs lib is_coinbase txs start) st
        (λ t. add_txs-Added txs start t) h
