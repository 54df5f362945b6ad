-- ===== src/Frontend/Page/Seal.antt =====
-- `encryptText` and `packPayload` of InferenceNewPage.tsx. The random IV and `crypto.subtle` are
-- arguments.
use blindference.Prelude.{ℕ, ◌+◌, ◌-◌, Result, ok, ◌>>=◌, length, replicate, take, drop}
use blindference.Bytes.{Buffer, write_at}
use blindference.Crypto.{Gcm, WebCrypto}

pub record SealedText : Type 0 where
  pub iv : Buffer
  pub auth_tag : Buffer
  pub ciphertext : Buffer

unfoldable pub encrypt_text :
    (g : Gcm) → WebCrypto g → (ℕ → Buffer) → g.Text → Buffer → Result SealedText
encrypt_text g web random_bytes text key = do
  let iv = random_bytes 12
  encrypted ← web.web_encrypt key iv (g.encode text)
  ok (record {
    iv = iv;
    auth_tag = drop (length encrypted - 16) encrypted;
    ciphertext = take (length encrypted - 16) encrypted;
  })

unfoldable pub pack_payload : SealedText → Buffer
pack_payload payload =
    let packed =
      replicate (length payload.iv + length payload.auth_tag + length payload.ciphertext) 0 in
    write_at (length payload.iv + length payload.auth_tag) payload.ciphertext
      (write_at (length payload.iv) payload.auth_tag (write_at 0 payload.iv packed))
