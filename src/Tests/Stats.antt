-- ===== src/Tests/Stats.antt =====
-- The statistics of a block with one transaction.
use chronik.Prelude.{arith, refl, pos, true, [], ◌∷◌, List, some, none, Option}
use chronik.Chain.{UnhashedTx}
use chronik.BlockStats.{BlockStats, add_txs, block_stats}
use chronik.BlockStats.Laws.{block_stats-totals, AreTotals}
use chronik.Tests.Fixture.{toy_scripts, parent, pay_to}
use chronik.Tests.Chain.{genesis_block, two_txs}

abbrev one_tx : List UnhashedTx
one_tx = parent ∷ []

abbrev no_stats : BlockStats
no_stats = record {
  block_size = 0;
  num_txs = 0;
  num_inputs = 0;
  num_outputs = 0;
  sum_input_sats = pos 0;
  sum_coinbase_output_sats = pos 0;
  sum_normal_output_sats = pos 0;
  sum_burned_sats = pos 0;
}

abbrev or_none : Option BlockStats → BlockStats
or_none none = no_stats
or_none (some st) = st

abbrev one_stats : BlockStats
one_stats = or_none (
    block_stats toy_scripts (λ o. true) genesis_block one_tx two_txs (λ tx_pos input_idx. pay_to 4))

block_stats-totals_example :
    AreTotals toy_scripts (λ o. true) 92 one_tx two_txs.txs (λ tx_pos input_idx. pay_to 4) one_stats
unfolding block_stats add_txs
block_stats-totals_example =
    block_stats-totals toy_scripts (λ o. true) genesis_block one_tx two_txs
      (λ tx_pos input_idx. pay_to 4) one_stats 92 refl refl (omega arith)
