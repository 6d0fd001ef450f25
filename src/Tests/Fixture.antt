-- ===== src/Tests/Fixture.antt =====
-- A small script library, and transactions that spend one another's outputs.
use chronik.Prelude.{
  ℕ, pos, false, ◌&&◌, Option, List, none, some, [], ◌∷◌, length, nat_eq, if◌then◌else◌,
}
use chronik.Std.HashMap.{empty}
use chronik.Std.Ord.{nat_ord, list_ord}
use chronik.Chain.{Sha256d, TxInput, TxOutput, UnhashedTx, Coin, Script}
use chronik.ScriptPayload.{ScriptVariant, ScriptLib}
use chronik.Slp.{SlpValidTxData, SlpTxType, SlpLib, SlpDb, SlpError, valid, invalid}
use chronik.MempoolSlpData.{MempoolSlpData}
use chronik.MempoolData.{MempoolTxEntry, MempoolData, Outcome, ok, err}

abbrev pub toy_parse : Script → ScriptVariant
toy_parse [] = ScriptVariant.other []
toy_parse (op ∷ bytes) =
    if nat_eq op 118 && nat_eq (length bytes) 1
    then ScriptVariant.p2pkh bytes
    else ScriptVariant.other (op ∷ bytes)

abbrev pub toy_scripts : ScriptLib
toy_scripts = record {
  parse_variant = toy_parse;
  is_opreturn = λ s. false;
  pubkey_size = 2;
  legacy_pubkey_size = 3;
  hash_size = 1;
  p2pk = λ key. 33 ∷ key;
  p2pk_legacy = λ key. 65 ∷ key;
  p2pkh = λ hash. 118 ∷ hash;
  p2sh = λ hash. 169 ∷ hash;
  p2tr = λ key root. 98 ∷ key;
}

abbrev pub spend_of : Sha256d → ℕ → TxInput
spend_of txid n = record { prev_out = record { txid = txid; out_idx = n } }

abbrev pub pay_to : ℕ → TxOutput
pay_to address = record { value = pos 10; script = 118 ∷ address ∷ [] }

abbrev pub coin_of : ℕ → Coin
coin_of address = record { tx_output = pay_to address }

-- It spends a coin of the database.
abbrev pub parent : UnhashedTx
parent = record { inputs = spend_of 7 0 ∷ []; outputs = pay_to 5 ∷ pay_to 6 ∷ [] }

abbrev pub parent_entry : MempoolTxEntry
parent_entry = record { tx = parent; spent_coins = coin_of 4 ∷ []; time_first_seen = pos 100 }

-- A transaction without outputs, and one that spends from it, for the batches.
abbrev pub bare_entry : List TxInput → MempoolTxEntry
bare_entry inputs = record {
  tx = record { inputs = inputs; outputs = [] };
  spent_coins = [];
  time_first_seen = pos 100;
}

abbrev pub no_data : MempoolData
no_data = record { txs = empty; script_txs = empty; utxos = empty; spends = empty }

abbrev pub after : {A : Type 0} → Outcome A → MempoolData
after (ok a s) = s
after (err e s) = s

-- Every transaction counts as a GENESIS of 100 tokens at output 1, and the database is empty.
abbrev pub genesis_of : Sha256d → SlpValidTxData
genesis_of txid = record {
  slp_tx_data = record {
    input_tokens = [];
    output_tokens =
        record { amount = pos 0; is_mint_baton = false }
        ∷ record { amount = pos 100; is_mint_baton = false }
        ∷ [];
    slp_token_type = 1;
    slp_tx_type = SlpTxType.genesis 0;
    token_id = txid;
    group_token_id = none;
  };
  slp_burns = [];
}

abbrev pub toy_slp : SlpLib
toy_slp = record {
  SlpParseData = Sha256d;
  parse_slp_tx = λ txid tx. valid txid;
  validate_slp_tx = λ txid spent. valid (genesis_of txid);
}

-- No transaction looks like SLP.
abbrev pub plain_slp : SlpLib
plain_slp = record {
  SlpParseData = Sha256d;
  parse_slp_tx = λ txid tx. invalid SlpError.missing_op_return;
  validate_slp_tx = λ txid spent. valid (genesis_of txid);
}

abbrev pub empty_db : SlpDb
empty_db = record { tx_num_by_txid = λ txid. some none; slp_data_by_tx_num = λ tx_num. some none }

abbrev pub no_slp : MempoolSlpData
no_slp = record { valid_slp_txs = empty; invalid_slp_txs = empty; token_stats_delta = empty }

abbrev pub slp_after : Option MempoolSlpData → MempoolSlpData
slp_after none = no_slp
slp_after (some s) = s
