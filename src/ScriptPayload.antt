-- ===== src/ScriptPayload.antt =====
-- chronik-rocksdb/src/script_payload.rs: the keys under which a script is indexed.
pub mod Laws
use chronik.Prelude.{
  map, ℕ, Bool, true, false, Option, none, some, List, [], ◌∷◌, length, nat_eq, if◌then◌else◌,
}
use chronik.Chain.{Bytes, Script}

pub data PayloadPrefix : Type 0 where
  other p2pk p2pk_legacy p2pkh p2sh p2tr_commitment p2tr_state : PayloadPrefix

pub record ScriptPayload : Type 0 where
  pub payload_prefix : PayloadPrefix
  pub payload_data : Bytes

pub record ScriptPayloadState : Type 0 where
  pub payload : ScriptPayload
  pub is_partial : Bool

-- `ScriptVariant` of `bitcoinsuite_core`.
pub data ScriptVariant : Type 0 where
  p2pk p2pk_legacy p2pkh p2sh : Bytes → ScriptVariant
  p2tr : Bytes → Option Bytes → ScriptVariant
  other : Script → ScriptVariant

-- The functions of `bitcoinsuite_core` on scripts, and the sizes of its fixed-size types.
pub record ScriptLib : Type 0 where
  pub parse_variant : Script → ScriptVariant
  pub is_opreturn : Script → Bool
  pub pubkey_size : ℕ
  pub legacy_pubkey_size : ℕ
  pub hash_size : ℕ
  pub p2pk : Bytes → Script
  pub p2pk_legacy : Bytes → Script
  pub p2pkh : Bytes → Script
  pub p2sh : Bytes → Script
  pub p2tr : Bytes → Option Bytes → Script

-- `payload_prefix as u8`
unfoldable pub prefix_byte : PayloadPrefix → ℕ
prefix_byte PayloadPrefix.other = 0
prefix_byte PayloadPrefix.p2pk = 1
prefix_byte PayloadPrefix.p2pk_legacy = 2
prefix_byte PayloadPrefix.p2pkh = 3
prefix_byte PayloadPrefix.p2sh = 4
prefix_byte PayloadPrefix.p2tr_commitment = 5
prefix_byte PayloadPrefix.p2tr_state = 6

unfoldable pub into_vec : ScriptPayload → Bytes
unfolding prefix_byte
into_vec p = prefix_byte p.payload_prefix ∷ p.payload_data

abbrev state : PayloadPrefix → Bytes → Bool → ScriptPayloadState
state prefix bytes is_partial = record {
  payload = record { payload_prefix = prefix; payload_data = bytes };
  is_partial = is_partial;
}

abbrev variant_payloads : (Script → Bool) → ScriptVariant → List ScriptPayloadState
variant_payloads is_opreturn (ScriptVariant.p2pk pubkey) =
    state PayloadPrefix.p2pk pubkey false ∷ []
variant_payloads is_opreturn (ScriptVariant.p2pk_legacy pubkey) =
    state PayloadPrefix.p2pk_legacy pubkey false ∷ []
variant_payloads is_opreturn (ScriptVariant.p2pkh hash) = state PayloadPrefix.p2pkh hash false ∷ []
variant_payloads is_opreturn (ScriptVariant.p2sh hash) = state PayloadPrefix.p2sh hash false ∷ []
variant_payloads is_opreturn (ScriptVariant.p2tr commitment none) =
    state PayloadPrefix.p2tr_commitment commitment false ∷ []
variant_payloads is_opreturn (ScriptVariant.p2tr commitment (some root)) =
    state PayloadPrefix.p2tr_commitment commitment true
    ∷ state PayloadPrefix.p2tr_state root true
    ∷ []
variant_payloads is_opreturn (ScriptVariant.other script) =
    if is_opreturn script then [] else state PayloadPrefix.other script false ∷ []

unfoldable pub script_payloads : ScriptLib → Script → List ScriptPayloadState
script_payloads lib script = variant_payloads lib.is_opreturn (lib.parse_variant script)

-- `data.try_into().ok()?`
abbrev sized : ℕ → Bytes → Script → Option Script
sized size bytes script = if nat_eq (length bytes) size then some script else none

abbrev reconstruct : ScriptLib → PayloadPrefix → Bytes → Option Script
reconstruct lib PayloadPrefix.other bytes = some bytes
reconstruct lib PayloadPrefix.p2pk bytes = sized lib.pubkey_size bytes (lib.p2pk bytes)
reconstruct lib PayloadPrefix.p2pk_legacy bytes =
    sized lib.legacy_pubkey_size bytes (lib.p2pk_legacy bytes)
reconstruct lib PayloadPrefix.p2pkh bytes = sized lib.hash_size bytes (lib.p2pkh bytes)
reconstruct lib PayloadPrefix.p2sh bytes = sized lib.hash_size bytes (lib.p2sh bytes)
reconstruct lib PayloadPrefix.p2tr_commitment bytes =
    sized lib.pubkey_size bytes (lib.p2tr bytes none)
reconstruct lib PayloadPrefix.p2tr_state bytes = none

unfoldable pub reconstruct_script : ScriptLib → ScriptPayload → Option Script
reconstruct_script lib p = reconstruct lib p.payload_prefix p.payload_data

-- The keys of one script: `script_payload.payload.into_vec()` for each of its payloads.
unfoldable pub payload_keys : ScriptLib → Script → List Bytes
payload_keys lib script = map (λ st. into_vec st.payload) (script_payloads lib script)
