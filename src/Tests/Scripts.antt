-- ===== src/Tests/Scripts.antt =====
-- Payloads of a pay-to-hash script.
use chronik.Prelude.{refl, ◌≡◌, [], ◌∷◌, All}
use chronik.Std.Ord.{nat_ord, list_ord}
use chronik.ScriptPayload.{PayloadPrefix, ScriptPayload, script_payloads}
use chronik.ScriptPayload.Laws.{GivesBack, into_vec_injective, script_payloads-GivesBack}
use chronik.Tests.Fixture.{toy_scripts}

abbrev hash_payload : ScriptPayload
hash_payload = record { payload_prefix = PayloadPrefix.p2pkh; payload_data = 5 ∷ [] }

into_vec_injective_example : hash_payload ≡ hash_payload
into_vec_injective_example = into_vec_injective hash_payload hash_payload refl

script_payloads-GivesBack_example :
    All (GivesBack toy_scripts (118 ∷ 5 ∷ [])) (script_payloads toy_scripts (118 ∷ 5 ∷ []))
script_payloads-GivesBack_example =
    script_payloads-GivesBack toy_scripts (118 ∷ 5 ∷ []) (refl, refl)
