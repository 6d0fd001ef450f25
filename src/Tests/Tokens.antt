-- ===== src/Tests/Tokens.antt =====
-- A transaction that mints tokens, inserted and deleted.
use chronik.Prelude.{refl, ◌≡◌, some, none, [], ◌∷◌, List, Option}
use chronik.Std.Ord.{◌==◌, nat_ord, int_ord}
use chronik.Slp.{SlpSpentOutput, valid}
use chronik.MempoolSlpData.{
  MempoolSlpData, update_token, burn, mint_token, burn_computed, burn_inputs, mint_outputs,
  update_token_stats, collect_spent_output, collect_inputs, collect_spent_outputs, insert_checked,
  insert_mempool_tx, delete_checked, delete_mempool_tx,
}
use chronik.MempoolSlpData.Totals.{IsTidy}
use chronik.MempoolSlpData.RoundTrip.{
  SameSlp, Recorded, insert_slp-totals, delete-insert_slp, checked-IsTidy,
}
use chronik.Tests.Fixture.{toy_slp, empty_db, no_slp, slp_after, parent, genesis_of}

abbrev minted_parent : MempoolSlpData
minted_parent = slp_after (insert_mempool_tx toy_slp empty_db 20 parent no_slp)

mint_parent : insert_mempool_tx toy_slp empty_db 20 parent no_slp ≡ some minted_parent
unfolding update_token burn mint_token burn_computed burn_inputs mint_outputs update_token_stats
    collect_spent_output collect_inputs collect_spent_outputs insert_checked insert_mempool_tx
mint_parent = refl

insert_slp-totals_example :
    (spent : List (Option SlpSpentOutput)) × (collect_spent_outputs empty_db no_slp parent
      ≡ some spent)
    × Recorded 20 (valid (genesis_of 20)) spent no_slp minted_parent
insert_slp-totals_example =
    insert_slp-totals toy_slp empty_db 20 parent no_slp minted_parent mint_parent refl refl

delete-insert_slp_example :
    (s : MempoolSlpData) × (delete_mempool_tx empty_db 20 parent minted_parent ≡ some s)
    × SameSlp s no_slp
unfolding ◌==◌ nat_ord
delete-insert_slp_example =
    delete-insert_slp toy_slp empty_db 20 parent no_slp minted_parent refl refl refl mint_parent

checked-IsTidy_example :
    IsTidy (insert_checked toy_slp 20 (none ∷ []) (valid (genesis_of 20)) no_slp)
    × IsTidy (delete_checked 20 (none ∷ []) no_slp)
unfolding ◌==◌ int_ord
checked-IsTidy_example =
    checked-IsTidy toy_slp 20 (none ∷ []) (valid (genesis_of 20)) no_slp (λ j. refl)
