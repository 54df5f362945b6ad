-- ===== src/Sdk/Encryption.antt =====
-- network/packages/agent-sdk/src/encryption.ts: sealing prompts, the packed layout, and the key
-- halves. What `randomBytes` draws is an argument.
pub mod Payloads
pub mod Keys
use blindference.Prelude.{
  ℕ, ◌≡◌, ◌++◌, Result, ok, err, ◌>>=◌, ◌>>◌, throw_if, ltb, not, ◌==◌, length, replicate, decimal,
  ◌<+>◌, List, take, drop,
}
use blindference.Bytes.{Buffer, subarray, write_at}
use blindference.Bytes.Hex.{to_hex, big_int_hex, to_string_16, pad_start, decode_hex}
use blindference.Crypto.{Gcm}

pub record Payload : Type 0 where
  pub iv : Buffer
  pub auth_tag : Buffer
  pub ciphertext : Buffer

pub record KeyHalves : Type 0 where
  pub high : ℕ
  pub low : ℕ

unfoldable pub generate_aes_key : (ℕ → Buffer) → Buffer
generate_aes_key random_bytes = random_bytes 32

unfoldable pub encrypt_aes_gcm : (g : Gcm) → (ℕ → Buffer) → g.Text → Buffer → Result Payload
encrypt_aes_gcm g random_bytes plaintext key = do
  let iv = random_bytes 12
  (ciphertext, auth_tag) ← g.seal key iv (g.encode plaintext)
  ok (record { iv = iv; auth_tag = auth_tag; ciphertext = ciphertext })

unfoldable pub decrypt_aes_gcm : (g : Gcm) → Buffer → Buffer → Buffer → Buffer → Result g.Text
decrypt_aes_gcm g ciphertext key iv auth_tag = do
  plaintext ← g.open_sealed key iv auth_tag ciphertext
  ok (g.decode plaintext)

-- [iv (12 bytes)][authTag (16 bytes)][ciphertext]
unfoldable pub pack_aes_payload : Buffer → Buffer → Buffer → Buffer
pack_aes_payload iv auth_tag ciphertext = iv ++ (auth_tag ++ ciphertext)

unfoldable pub unpack_aes_payload : Buffer → Result Payload
unpack_aes_payload packed = do
  throw_if (ltb (length packed) 28) "Packed payload too short (must be at least 28 bytes)"
  ok (record {
    iv = subarray 0 12 packed;
    auth_tag = subarray 12 28 packed;
    ciphertext = drop 28 packed;
  })

unfoldable pub split_key_for_cofhe : Buffer → Result KeyHalves
split_key_for_cofhe key = do
  throw_if (not (length key == 32)) ("Key must be 32 bytes, got " <+> decimal (length key))
  high ← big_int_hex (to_hex (subarray 0 16 key))
  low ← big_int_hex (to_hex (subarray 16 32 key))
  ok (record { high = high; low = low })

-- `key.write(s, offset, size, 'hex')`
unfoldable pub write_hex : List ℕ → ℕ → ℕ → Buffer → Buffer
write_hex s offset size key = write_at offset (take size (decode_hex s)) key

unfoldable pub combine_key_halves : ℕ → ℕ → Buffer
unfolding write_hex
combine_key_halves high low =
    write_hex (pad_start 32 b'0' (to_string_16 low)) 16 16
      (write_hex (pad_start 32 b'0' (to_string_16 high)) 0 16 (replicate 32 0))
