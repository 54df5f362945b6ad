-- ===== src/Frontend/PromptKey/Output.antt =====
-- The opening of a packed answer in textPromptKey.ts.
use blindference.Prelude.{◌+◌, Result, ok, ◌>>=◌, ◌>>◌, throw_if, ltb, length, replicate, drop}
use blindference.Bytes.{Buffer, subarray, write_at}
use blindference.Crypto.{Gcm, WebCrypto}

-- The ciphertext followed by the tag, as `crypto.subtle.decrypt` takes them.
unfoldable pub cipher_with_tag : Buffer → Buffer → Buffer
cipher_with_tag ciphertext auth_tag =
    write_at (length ciphertext) auth_tag
      (write_at 0 ciphertext (replicate (length ciphertext + length auth_tag) 0))

unfoldable pub decrypt_packed : (g : Gcm) → WebCrypto g → Buffer → Buffer → Result g.Text
decrypt_packed g web packed key = do
  throw_if (ltb (length packed) 28) "Encrypted output payload is too short"
  let iv = subarray 0 12 packed
  let auth_tag = subarray 12 28 packed
  let ciphertext = drop 28 packed
  plaintext ← web.web_decrypt key iv (cipher_with_tag ciphertext auth_tag)
  ok (g.decode plaintext)
