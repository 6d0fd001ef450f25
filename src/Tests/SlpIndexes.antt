-- ===== src/Tests/SlpIndexes.antt =====
-- A GENESIS and a SEND of a block, in tables that are empty or have the token.
use chronik.Prelude.{
  ℕ, zero, suc, +ℤ_zero, ◌≡◌, refl, pos, true, ◌+ℤ◌, false, Option, none, some, List, [], ◌∷◌, map,
  enumerate, arith, nat_eq, All, if◌then◌else◌, inl, inr,
}
use chronik.Std.Ord.{◌==◌, nat_ord}
use chronik.Std.HashMap.{empty, insert}
use chronik.Std.Shuffle.{same}
use chronik.Slp.{TokenId, TxNum, SlpTxType, SlpValidTxData, SlpSpentOutput}
use chronik.SlpIndex.Entry.{SlpValues, ok}
use chronik.SlpIndex.Tables.{SlpTables, SlpWrite, commit}
use chronik.SlpIndex.Numbers.{
  Cache, genesis_tokens, number_tokens, get_next_token_num, insert_new_tokens,
}
use chronik.SlpIndex.Numbering.{IsNumbered, IsNamed, insert_new_tokens-IsNumbered}
use chronik.SlpIndex.Supply.{
  Supply, add_amount, burn_token, add_inputs, add_minted, calc_token_supply_delta, block_supply,
}
use chronik.SlpIndex.Accounting.{spent_token, SameTotals, calc_token_supply_delta-SameTotals}
use chronik.SlpIndex.RoundTrip.{AreReadBack, slp_data_by_tx_num-insert}
use chronik.SlpIndex.StatsUpdated.{
  StatsCall, Counts, AreUpdated, update_token_stats-AreUpdated, run_stats,
}
use chronik.MempoolSlpData
use chronik.Tests.Fixture.{genesis_of, no_slp, spend_of, pay_to}
use chronik.Tests.ListColumn.{list_column, no_items}

abbrev toy_values : SlpValues
toy_values = record {
  mint_baton_token = record { amount = pos 0; is_mint_baton = true };
  mint_baton_flag = refl;
  unknown_token_type = 3;
  to_string = λ e. [];
}

abbrev no_tables : SlpTables (list_column TokenId)
no_tables = record {
  token_id_by_num = no_items TokenId;
  token_num_by_id = empty;
  token_metadata = empty;
  slp_tx_data = empty;
  slp_tx_invalid_message = empty;
  token_stats = empty;
}

abbrev send_of : TokenId → SlpValidTxData
send_of token_id = record {
  slp_tx_data = record {
    input_tokens = record { amount = pos 100; is_mint_baton = false } ∷ [];
    output_tokens =
        record { amount = pos 60; is_mint_baton = false }
        ∷ record { amount = pos 0; is_mint_baton = true }
        ∷ [];
    slp_token_type = 1;
    slp_tx_type = SlpTxType.send;
    token_id = token_id;
    group_token_id = none;
  };
  slp_burns =
      some
        (record { token = record { amount = pos 40; is_mint_baton = false }; token_id = token_id })
      ∷ none
      ∷ [];
}

abbrev two_txs : List (TxNum × SlpValidTxData)
two_txs = (12, send_of 20) ∷ (11, genesis_of 20) ∷ []

no_tables-IsNumbered : IsNumbered (list_column TokenId) no_tables
no_tables-IsNumbered = record {
  num_of_id = λ n id h. ground (arith, h);
  id_of_num = λ n id h. ground (arith, h);
  null_has_none = refl;
}

insert_new_tokens-IsNumbered_example :
    IsNumbered (list_column TokenId) (
      commit
        (list_column TokenId)
        (insert_new_tokens (list_column TokenId) no_tables (map (λ x. x.1) two_txs)).0
        no_tables)
    × All
        (IsNamed (list_column TokenId) (
          commit
            (list_column TokenId)
            (insert_new_tokens (list_column TokenId) no_tables (map (λ x. x.1) two_txs)).0
            no_tables))
        (enumerate
          (get_next_token_num (list_column TokenId) no_tables)
          (genesis_tokens (map (λ x. x.1) two_txs)))
insert_new_tokens-IsNumbered_example =
    insert_new_tokens-IsNumbered (list_column TokenId) no_tables (map (λ x. x.1) two_txs)
      no_tables-IsNumbered ((λ e. ground (arith, e)), (refl, (tt, tt)))

slp_data_by_tx_num-insert_example : AreReadBack toy_values (list_column TokenId) no_tables two_txs
unfolding insert_new_tokens number_tokens get_next_token_num commit
slp_data_by_tx_num-insert_example =
    slp_data_by_tx_num-insert toy_values (list_column TokenId) no_tables two_txs
      no_tables-IsNumbered ((λ e. ground (arith, e)), (refl, (tt, tt)))
      (((λ e. ground (arith, e)), tt), (tt, tt))
      (
        record {
          inputs = (inr (100, (refl, omega arith)), tt);
          outputs = (inr (60, (refl, omega arith)), (inl refl, tt));
          burns = ((inr (40, (refl, omega arith)), inr (0, refl)), (tt, tt));
          group = tt;
          of_type = inr ((λ e. ground (arith, e)), (0, refl));
        },
        (
          record {
            inputs = tt;
            outputs = (inr (0, (refl, omega arith)), (inr (100, (refl, omega arith)), tt));
            burns = tt;
            group = tt;
            of_type = λ e. ground (arith, e);
          },
          tt,
        ),
      )

abbrev one_spent : List (Option SlpSpentOutput)
one_spent =
    some (record {
      token_id = 20;
      token_type = 1;
      token = record { amount = pos 100; is_mint_baton = false };
      group_token_id = none;
    })
    ∷ []

abbrev no_supply : Supply
no_supply = record { minted = []; burned = [] }

calc_token_supply_delta-SameTotals_example :
    SameTotals 20
      (calc_token_supply_delta (map spent_token one_spent) none no_supply)
      (MempoolSlpData.update_token_stats ◌+ℤ◌ none one_spent no_slp)
calc_token_supply_delta-SameTotals_example =
    calc_token_supply_delta-SameTotals 20 (λ e. ground (arith, e)) none one_spent no_supply no_slp
      (refl, refl)

-- The token 20 has the number 0.
abbrev one_token : SlpTables (list_column TokenId)
one_token = record no_tables {
  token_id_by_num = ((0, 20) ∷ [], (tt, tt));
  token_num_by_id = λ j. if nat_eq j 20 then some 0 else none;
}

one_token-IsNumbered : IsNumbered (list_column TokenId) one_token
one_token-IsNumbered = record {
  num_of_id = λ n id h. ground (arith, h);
  id_of_num = λ n id h. ground (arith, h);
  null_has_none = refl;
}

-- A GENESIS of 100 tokens, all of which the next transaction burns.
abbrev block_call : StatsCall
block_call = record {
  order = λ xs. xs;
  first_tx_num = 11;
  txs =
      record { inputs = []; outputs = pay_to 5 ∷ pay_to 6 ∷ [] }
      ∷ record { inputs = spend_of 20 1 ∷ []; outputs = [] }
      ∷ [];
  valid_txs = insert 11 (genesis_of 20) empty;
  input_tx_nums = (11 ∷ []) ∷ [];
  spent = (none ∷ []) ∷ [];
  cache = empty;
}

abbrev block_amounts : Supply
block_amounts = record { minted = (20, pos 100) ∷ []; burned = (20, pos 100) ∷ [] }

block_amounts_counted : Counts block_call block_amounts
unfolding block_supply calc_token_supply_delta add_inputs add_minted burn_token add_amount ◌==◌
    nat_ord ◌+ℤ◌
block_amounts_counted = (refl, same (20 ∷ []))

-- The token 20 is spent by the second transaction.
abbrev spent_in_block : ℕ → List (Option SlpSpentOutput)
spent_in_block zero = none ∷ []
spent_in_block (suc i) = one_spent

update_token_stats-AreUpdated_example :
    (ws : List SlpWrite) × (cache : Cache) × ((run_stats
          (list_column TokenId)
          ◌+ℤ◌
          one_token
          block_call
        ≡ ok (ws, cache))
      × AreUpdated
          (list_column TokenId)
          ◌+ℤ◌
          one_token
          (commit (list_column TokenId) ws one_token)
          block_call
          spent_in_block)
unfolding ◌==◌ nat_ord
update_token_stats-AreUpdated_example =
    update_token_stats-AreUpdated (list_column TokenId) ◌+ℤ◌ +ℤ_zero one_token one_token block_call
      block_amounts spent_in_block one_token-IsNumbered refl (λ id. refl) (refl, (refl, tt))
      block_amounts_counted ((0, refl), tt)
