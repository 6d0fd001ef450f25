-- ===== src/Tests/SlpBatches.antt =====
-- A batch of two transactions, of which the first spends an output of the second.
use chronik.Prelude.{
  refl, ◌≡◌, none, some, [], ◌∷◌, List, ℕ, All, false, arith, nat_eq, if◌then◌else◌,
}
use chronik.Std.Ord.{◌==◌, nat_ord}
use chronik.Std.HashMap.{empty}
use chronik.Std.Shuffle.{same}
use chronik.Slp.{TxNum}
use chronik.Rounds.{finished, out_of_fuel, rounds, Ended}
use chronik.SlpBatch.{
  BatchSlpTx, BatchState, entry_ord, record_verdict, validate_one, visit_slp, in_txs,
  validate_slp_batch,
}
use chronik.SlpBatch.Progress.{validate_slp_batch-finishes}
use chronik.SlpBatch.Verdicts.{Decided, validate_slp_batch-verdicts}
use chronik.Tests.Fixture.{toy_slp, spend_of, pay_to}

abbrev spender_first : List (TxNum × BatchSlpTx ℕ)
spender_first =
    (
      11,
      record {
        tx = record { inputs = spend_of 20 1 ∷ []; outputs = [] };
        parsed_tx_data = 21;
        input_tx_nums = some 10 ∷ [];
      },
    )
    ∷ (
      10,
      record {
        tx = record { inputs = []; outputs = pay_to 5 ∷ pay_to 6 ∷ [] };
        parsed_tx_data = 20;
        input_tx_nums = [];
      },
    )
    ∷ []

abbrev finished_state : Ended (TxNum × BatchSlpTx ℕ) ⊥ BatchState → BatchState
finished_state (finished s) = s
finished_state _ = record {
  known_slp_outputs = empty;
  valid_results = empty;
  invalid_results = empty;
}

abbrev verdicts : BatchState
verdicts = finished_state (validate_slp_batch toy_slp (λ xs. xs) spender_first empty)

validated : validate_slp_batch toy_slp (λ xs. xs) spender_first empty ≡ finished verdicts
unfolding validate_slp_batch visit_slp validate_one record_verdict rounds chronik.Rounds.pass ◌==◌
    nat_ord entry_ord
validated = refl

validate_slp_batch-verdicts_example :
    All (Decided toy_slp verdicts) spender_first
    × ((t : TxNum)
        → in_txs spender_first t ≡ false
        → (verdicts.valid_results t ≡ none)
          × ((verdicts.invalid_results t ≡ none)
              × ((i : ℕ) → verdicts.known_slp_outputs (record { tx_num = t; out_idx = i }) ≡ none)))
unfolding ◌==◌ nat_ord
validate_slp_batch-verdicts_example =
    validate_slp_batch-verdicts toy_slp (λ xs. xs) same spender_first empty verdicts
      (refl, (refl, tt)) (λ k h. refl) validated

validate_slp_batch-finishes_example :
    (f : BatchState) × (validate_slp_batch toy_slp (λ xs. xs) spender_first empty ≡ finished f)
validate_slp_batch-finishes_example =
    validate_slp_batch-finishes toy_slp (λ xs. xs) same spender_first empty (λ n. n)
      (λ n. if nat_eq n 10 then 2 else 0) (refl, (refl, tt))
      (((λ h. (omega arith, omega arith)), tt), (tt, tt))
