-- ===== src/Bytes.antt =====
-- Byte buffers as lists of numbers below 256, and their value as a big-endian number.
pub mod Hex
pub mod Laws
pub mod HexLaws
pub mod Layout
pub mod Bits
use blindference.Prelude.{
  ℕ, zero, suc, ◌+◌, ◌*◌, ◌/◌, ◌%◌, ◌<◌, List, [], ◌∷◌, ◌++◌, All, take, drop, length, ◌-◌,
}

abbrev pub Buffer : Type 0
Buffer = List ℕ

abbrev pub IsBytes : Buffer → Type 0
IsBytes bytes = All (λ b. b < 256) bytes

-- The number that the bytes spell, most significant first, behind those already read.
unfoldable pub be_value_from : ℕ → Buffer → ℕ
be_value_from acc [] = acc
be_value_from acc (b ∷ bs) = be_value_from (acc * 256 + b) bs

unfoldable pub be_value : Buffer → ℕ
unfolding be_value_from
be_value bytes = be_value_from 0 bytes

-- The k lowest bytes of a number, most significant first.
unfoldable pub be_bytes : ℕ → ℕ → Buffer
be_bytes zero n = []
be_bytes (suc k) n = be_bytes k (n / 256) ++ (n % 256) ∷ []

-- `buf.subarray(from, to)`
abbrev pub subarray : ℕ → ℕ → Buffer → Buffer
subarray from to buf = take (to - from) (drop from buf)

-- Overwriting the bytes of a buffer from an offset on; what does not fit is dropped.
abbrev pub write_at : ℕ → Buffer → Buffer → Buffer
write_at offset src dst =
    take offset dst ++ (take (length dst - offset) src ++ drop (offset + length src) dst)
