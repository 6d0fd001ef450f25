-- ===== src/Tests/States.antt =====
-- The state of an output that is neither in the mempool's spends nor in the database's.
use chronik.Prelude.{arith, ◌≡◌, ◌||◌, none, some, [], ◌∷◌}
use chronik.Chain.{OutPoint}
use chronik.UtxoState.{ChainReader, utxo_state, is_spent_in_mempool}
use chronik.UtxoState.Laws.{
  expected, expected_height, num_outputs, is_spent_in_chain, utxo_state-expected,
}
use chronik.Tests.Fixture.{no_data, parent}
use chronik.Tests.Chain.{tx_entry}

abbrev one_block : ChainReader
one_block = record {
  tx_and_num_by_txid = λ txid. some (0, record { entry = tx_entry 7; block_height = 3 });
  spends_by_tx_num = λ tx_num. record { out_idx = 1; tx_num = 2; input_idx = 0 } ∷ [];
  raw_tx = λ block_tx. parent;
}

abbrev second_output : OutPoint
second_output = record { txid = 7; out_idx = 1 }

utxo_state-expected_example :
    ((utxo_state no_data one_block second_output).state
      ≡ expected
          (num_outputs one_block none (one_block.tx_and_num_by_txid 7))
          (is_spent_in_mempool no_data second_output
            || is_spent_in_chain one_block second_output (one_block.tx_and_num_by_txid 7))
          1)
    × ((utxo_state no_data one_block second_output).height
        ≡ expected_height none (one_block.tx_and_num_by_txid 7))
utxo_state-expected_example =
    utxo_state-expected no_data one_block second_output (λ entry h. ground (arith, h))
