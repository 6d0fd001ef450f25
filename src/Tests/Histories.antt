-- ===== src/Tests/Histories.antt =====
-- The histories of two scripts that a block touches.
use chronik.Prelude.{◌≡◌, refl, [], ◌∷◌, List, any, enumerate}
use chronik.Std.Ord.{◌==◌, nat_ord, list_ord}
use chronik.Std.BTreeSet.{contains}
use chronik.Std.HashMap.{unwrap_or}
use chronik.Chain.{Bytes}
use chronik.Slp.{TxNum}
use chronik.ScriptTxs.{
  key_for_script_payload, num_pages_by_payload, stored_num_txs, prepare_tx_nums_by_payload,
}
use chronik.ScriptTxs.Laws.{touches, prepare-contains}
use chronik.Tests.Fixture.{toy_scripts, parent, pay_to}

prepare-contains_example :
    contains 4 (
      unwrap_or
        (prepare_tx_nums_by_payload toy_scripts
          (λ tx_pos input_idx. pay_to 4)
          3
          (parent ∷ parent ∷ [])
          (3 ∷ 4 ∷ []))
        [])
    ≡ any
        (touches toy_scripts (λ tx_pos input_idx. pay_to 4) 3 4 (3 ∷ 4 ∷ []))
        (enumerate 0 (parent ∷ parent ∷ []))
prepare-contains_example =
    prepare-contains toy_scripts (λ tx_pos input_idx. pay_to 4) 3 4 (3 ∷ 4 ∷ [])
      (parent ∷ parent ∷ [])

-- The keys of the pages 0 and 2 of one payload; between them stands a key of a longer payload.
abbrev pages : List (Bytes × List TxNum)
pages =
    (key_for_script_payload (0 ∷ 7 ∷ []) 0, 1 ∷ 2 ∷ [])
    ∷ (key_for_script_payload (0 ∷ 7 ∷ 0 ∷ []) 1, 3 ∷ [])
    ∷ (key_for_script_payload (0 ∷ 7 ∷ []) 2, 4 ∷ [])
    ∷ []

pages_counted : num_pages_by_payload (0 ∷ 7 ∷ []) pages ≡ 1
unfolding num_pages_by_payload key_for_script_payload ◌==◌ list_ord nat_ord
pages_counted = refl

txs_counted :
    stored_num_txs 2 (0 ∷ 7 ∷ []) ((key_for_script_payload (0 ∷ 7 ∷ []) 2, 4 ∷ []) ∷ []) ≡ 5
unfolding stored_num_txs key_for_script_payload ◌==◌ list_ord nat_ord
txs_counted = refl

-- A key of a longer payload is the first one backwards from the last possible key.
shadowed :
    stored_num_txs 2 (0 ∷ 7 ∷ []) (
      (key_for_script_payload (0 ∷ 7 ∷ 9 ∷ []) 0, 3 ∷ [])
      ∷ (key_for_script_payload (0 ∷ 7 ∷ []) 2, 4 ∷ [])
      ∷ [])
    ≡ 0
unfolding stored_num_txs key_for_script_payload ◌==◌ list_ord nat_ord
shadowed = refl
