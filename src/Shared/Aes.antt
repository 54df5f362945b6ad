-- ===== src/Shared/Aes.antt =====
-- network/packages/shared/src/encryption/aes.ts: the layout with an IV of 16 bytes.
pub mod Laws
use blindference.Prelude.{
  ℕ, ◌≡◌, ◌++◌, Result, ok, err, ◌>>=◌, ◌>>◌, throw_if, ltb, not, ◌==◌, length, drop,
}
use blindference.Bytes.{Buffer, subarray}
use blindference.Bytes.Hex.{to_hex, big_int_hex, to_string_16, pad_start, decode_hex}
use blindference.Crypto.{Gcm}

pub record EncryptedPayload : Type 0 where
  pub iv : Buffer
  pub auth_tag : Buffer
  pub ciphertext : Buffer

pub record FheKey : Type 0 where
  pub high : ℕ
  pub low : ℕ

unfoldable pub generate_key : (ℕ → Buffer) → Buffer
generate_key random_bytes = random_bytes 32

unfoldable pub encrypt_text : (g : Gcm) → (ℕ → Buffer) → g.Text → Buffer → Result EncryptedPayload
encrypt_text g random_bytes text key = do
  throw_if (not (length key == 32)) "Key must be 32 bytes"
  let iv = random_bytes 16
  (ciphertext, auth_tag) ← g.seal key iv (g.encode text)
  ok (record { iv = iv; auth_tag = auth_tag; ciphertext = ciphertext })

unfoldable pub pack_payload : EncryptedPayload → Result Buffer
pack_payload payload = do
  throw_if (not (length payload.iv == 16)) "IV must be 16 bytes"
  throw_if (not (length payload.auth_tag == 16)) "Auth tag must be 16 bytes"
  ok (payload.iv ++ (payload.auth_tag ++ payload.ciphertext))

unfoldable pub unpack_payload : Buffer → Result EncryptedPayload
unpack_payload packed = do
  throw_if (ltb (length packed) 32) "Packed data too short"
  ok (record {
    iv = subarray 0 16 packed;
    auth_tag = subarray 16 32 packed;
    ciphertext = drop 32 packed;
  })

unfoldable pub decrypt_blob : (g : Gcm) → Buffer → Buffer → Result g.Text
decrypt_blob g packed key = do
  throw_if (not (length key == 32)) "Key must be 32 bytes"
  p ← unpack_payload packed
  decrypted ← g.open_sealed key p.iv p.auth_tag p.ciphertext
  ok (g.decode decrypted)

unfoldable pub split_key_for_fhe : Buffer → Result FheKey
split_key_for_fhe key = do
  throw_if (not (length key == 32)) "Key must be 32 bytes"
  high ← big_int_hex (to_hex (subarray 0 16 key))
  low ← big_int_hex (to_hex (subarray 16 32 key))
  ok (record { high = high; low = low })

unfoldable pub combine_key_from_fhe : ℕ → ℕ → Buffer
combine_key_from_fhe high low =
    let high_hex = pad_start 32 b'0' (to_string_16 high) in
    let low_hex = pad_start 32 b'0' (to_string_16 low) in decode_hex (high_hex ++ low_hex)
