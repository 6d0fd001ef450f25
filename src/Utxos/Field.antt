-- ===== src/Utxos/Field.antt =====
-- The 64 bits in which an entry keeps its value and whether its script is only partial.
use chronik.Prelude.{ℕ, ◌+◌, ◌%◌, ◌^◌, ◌/◌, ◌<◌, pos, ◌≡◌, arith}
use chronik.Utxos.Defs.{UtxoEntry, data_of, entry_of}

field_parts :
    (sats : ℕ)
    → sats < 2 ^ 63
    → (sats % 2 ^ 64 % 2 ^ 63 ≡ sats)
      × ((sats / 2 ^ 63 % 2 ≡ 0) × ((sats + 2 ^ 63) / 2 ^ 63 % 2 ≡ 1))
field_parts sats h = (omega arith, (omega arith, omega arith))

-- An entry whose value is not negative and below 2^63 is read back as it was written, and its field
-- fits in 64 bits.
pub entry_of-data_of :
    (e : UtxoEntry) (sats : ℕ)
    → e.value ≡ pos sats
    → sats < 2 ^ 63
    → (entry_of (data_of e) ≡ e) × ((data_of e).field < 2 ^ 64)
unfolding entry_of data_of
entry_of-data_of e sats v h = (ground (arith, field_parts sats h, v), ground (arith, v))
