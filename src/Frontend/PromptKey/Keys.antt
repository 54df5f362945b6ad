-- ===== src/Frontend/PromptKey/Keys.antt =====
-- The byte loops against the big-endian numbers.
use blindference.Prelude.{ℕ, ◌+◌, ◌*◌, ◌≡◌, refl, [], ◌∷◌, ◌++◌}
use blindference.Bytes.{Buffer, IsBytes, be_value_from, be_value, be_bytes}
use blindference.Bytes.Bits.{bit_or_byte, bit_and_0xff}
use blindference.Frontend.PromptKey.Bytes.{bigint_from, bigint_from_bytes, combine_key_halves}

bigint_from-eq :
    (value : ℕ) (bytes : Buffer)
    → IsBytes bytes
    → bigint_from value bytes ≡ be_value_from value bytes
unfolding bigint_from be_value_from
bigint_from-eq value [] h = refl
bigint_from-eq value (b ∷ bs) (p, h) =
    rw (bit_or_byte value b p) (bigint_from-eq (value * 256 + b) bs h)

-- The shifting loop reads the number that the bytes spell.
pub bigint_from_bytes-eq-be_value :
    (bytes : Buffer) → IsBytes bytes → bigint_from_bytes bytes ≡ be_value bytes
unfolding bigint_from_bytes be_value
bigint_from_bytes-eq-be_value bytes h = bigint_from-eq 0 bytes h

-- Joining two halves in the web client gives the 16 lowest bytes of each.
pub combine_key_halves-eq-be_bytes :
    (high low : ℕ) → combine_key_halves high low ≡ be_bytes 16 high ++ be_bytes 16 low
unfolding combine_key_halves be_bytes
combine_key_halves-eq-be_bytes high low = simp bit_and_0xff
