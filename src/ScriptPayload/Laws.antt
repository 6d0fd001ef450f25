-- ===== src/ScriptPayload/Laws.antt =====
-- The payload keys tell scripts apart, and a payload that is not partial gives its script back.
use chronik.Prelude.{
  map, Bool, refl, ◌≡◌, ap, none, some, All, length, arith, Bool-cases, inl, inr, ◌⊎◌, true,
}
use chronik.Std.Ord.{◌==◌, list_ord, nat_ord}
use chronik.Std.BTreeSet.{contains, Distinct}
use chronik.Chain.{Script}
use chronik.ScriptPayload.{
  PayloadPrefix, ScriptPayload, ScriptPayloadState, ScriptVariant, ScriptLib, prefix_byte, into_vec,
  script_payloads, payload_keys, variant_payloads, reconstruct_script,
}

-- What `parse_variant` documents: the variant holds the parts of the script, at their sizes.
abbrev pub Spells : ScriptLib → Script → ScriptVariant → Type 0
Spells lib s (ScriptVariant.p2pk key) = (length key ≡ lib.pubkey_size) × (lib.p2pk key ≡ s)
Spells lib s (ScriptVariant.p2pk_legacy key) =
    (length key ≡ lib.legacy_pubkey_size) × (lib.p2pk_legacy key ≡ s)
Spells lib s (ScriptVariant.p2pkh hash) = (length hash ≡ lib.hash_size) × (lib.p2pkh hash ≡ s)
Spells lib s (ScriptVariant.p2sh hash) = (length hash ≡ lib.hash_size) × (lib.p2sh hash ≡ s)
Spells lib s (ScriptVariant.p2tr key root) =
    (length key ≡ lib.pubkey_size) × (lib.p2tr key root ≡ s)
Spells lib s (ScriptVariant.other t) = t ≡ s

prefix_byte_injective : (p q : PayloadPrefix) → prefix_byte p ≡ prefix_byte q → p ≡ q
unfolding prefix_byte
prefix_byte_injective p q h = ground arith

-- Two payloads with the same key are the same payload.
pub into_vec_injective : (p q : ScriptPayload) → into_vec p ≡ into_vec q → p ≡ q
unfolding into_vec
into_vec_injective p q h = ground (arith, prefix_byte_injective p.payload_prefix q.payload_prefix)

-- The payload is partial, or gives back the script that it came from.
abbrev pub GivesBack : ScriptLib → Script → ScriptPayloadState → Type 0
GivesBack lib s st = (st.is_partial ≡ true) ⊎ (reconstruct_script lib st.payload ≡ some s)

variant-GivesBack :
    (lib : ScriptLib) (s : Script) (v : ScriptVariant)
    → Spells lib s v
    → All (GivesBack lib s) (variant_payloads lib.is_opreturn v)
unfolding reconstruct_script
variant-GivesBack lib s (ScriptVariant.p2tr key (some root)) h = (inl refl, (inl refl, tt))
variant-GivesBack lib s (ScriptVariant.other t) h = elim (Bool-cases (lib.is_opreturn t)) [
  | inl e ↦ rw e tt
  | inr e ↦ rw e (inr (ap some h), tt)
]
variant-GivesBack lib s (ScriptVariant.p2tr key none) h = (inr (ground arith), tt)
variant-GivesBack lib s (ScriptVariant.p2pk key) h = (inr (ground arith), tt)
variant-GivesBack lib s (ScriptVariant.p2pk_legacy key) h = (inr (ground arith), tt)
variant-GivesBack lib s (ScriptVariant.p2pkh hash) h = (inr (ground arith), tt)
variant-GivesBack lib s (ScriptVariant.p2sh hash) h = (inr (ground arith), tt)

-- If the script library parses the script into a variant that holds the parts that spell it, then
-- every payload of the script is partial, or gives the script back.
pub script_payloads-GivesBack :
    (lib : ScriptLib) (s : Script)
    → Spells lib s (lib.parse_variant s)
    → All (GivesBack lib s) (script_payloads lib s)
unfolding script_payloads
script_payloads-GivesBack lib s h = variant-GivesBack lib s (lib.parse_variant s) h

variant-Distinct :
    (is_opreturn : Script → Bool) (v : ScriptVariant)
    → Distinct (map (λ st. into_vec st.payload) (variant_payloads is_opreturn v))
unfolding into_vec prefix_byte contains ◌==◌ list_ord nat_ord
variant-Distinct is_opreturn (ScriptVariant.p2tr key none) = ground arith
variant-Distinct is_opreturn (ScriptVariant.p2tr key (some root)) = ground arith
variant-Distinct is_opreturn (ScriptVariant.other t) = elim (Bool-cases (is_opreturn t)) [
  | inl e ↦ rw e tt
  | inr e ↦ rw e (refl, tt)
]
variant-Distinct is_opreturn v = ground arith

-- No two payloads of a script have the same key.
pub payload_keys-Distinct : (lib : ScriptLib) (s : Script) → Distinct (payload_keys lib s)
unfolding payload_keys script_payloads
payload_keys-Distinct lib s = variant-Distinct lib.is_opreturn (lib.parse_variant s)
