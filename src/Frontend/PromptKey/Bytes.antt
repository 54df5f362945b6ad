-- ===== src/Frontend/PromptKey/Bytes.antt =====
-- The byte loops of textPromptKey.ts.
use Prim.Native.Nat.{bit_and, bit_or}
use blindference.Prelude.{ℕ, zero, suc, ◌+◌, ◌*◌, ◌/◌, [], ◌∷◌, set, replicate}
use blindference.Bytes.{Buffer}

-- value = (value << 8n) | BigInt(byte)
unfoldable pub bigint_from : ℕ → Buffer → ℕ
bigint_from value [] = value
bigint_from value (byte ∷ bytes) = bigint_from (bit_or (value * 256) byte) bytes

unfoldable pub bigint_from_bytes : Buffer → ℕ
unfolding bigint_from
bigint_from_bytes bytes = bigint_from 0 bytes

-- The rounds of the loop for the indices below `rounds`, from the highest down.
unfoldable pub write_rounds : ℕ → ℕ → Buffer → ℕ → Buffer
write_rounds zero remaining output offset = output
write_rounds (suc index) remaining output offset =
    write_rounds index (remaining / 256) (set output (offset + index) (bit_and remaining 0xff))
      offset

unfoldable pub write_big_int_to_bytes : ℕ → Buffer → ℕ → Buffer
unfolding write_rounds
write_big_int_to_bytes value output offset = write_rounds 16 value output offset

unfoldable pub combine_key_halves : ℕ → ℕ → Buffer
unfolding write_big_int_to_bytes
combine_key_halves high low =
    write_big_int_to_bytes low (write_big_int_to_bytes high (replicate 32 0) 0) 16
