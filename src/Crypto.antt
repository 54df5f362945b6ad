-- ===== src/Crypto.antt =====
-- The cryptography that the program calls: Node's `crypto` (AES-256-GCM), the browser's
-- `crypto.subtle`, and UTF-8. None of it is in the repository, so each is an interface with the
-- laws that its documentation states.
pub mod Toy
use blindference.Prelude.{◌≡◌, ◌≢◌, ◌++◌, Result, ok, length}
use blindference.Bytes.{Buffer}

-- `createCipheriv('aes-256-gcm', key, iv)` with `update`, `final` and `getAuthTag`; the decipher
-- with `setAuthTag`; and the conversions of a text to and from UTF-8.
pub record Gcm : Type 1 where
  pub Text : Type 0
  pub encode : Text → Buffer
  pub decode : Buffer → Text
  pub decode-encode : (text : Text) → decode (encode text) ≡ text
  -- key, iv and plaintext give the ciphertext and the authentication tag
  pub seal : Buffer → Buffer → Buffer → Result (Buffer × Buffer)
  -- key, iv, tag and ciphertext give the plaintext
  pub open_sealed : Buffer → Buffer → Buffer → Buffer → Result Buffer
  -- A key of 32 bytes is accepted, with any IV but the empty one.
  pub seals :
      (key iv plain : Buffer)
      → length key ≡ 32
      → length iv ≢ 0
      → (sealed : Buffer × Buffer) × (seal key iv plain ≡ ok sealed)
  pub length-tag :
      (key iv plain cipher tag : Buffer) → seal key iv plain ≡ ok (cipher, tag) → length tag ≡ 16
  pub opens :
      (key iv plain cipher tag : Buffer)
      → seal key iv plain ≡ ok (cipher, tag)
      → open_sealed key iv tag cipher ≡ ok plain

-- `crypto.subtle.encrypt` and `decrypt` with a tag of 128 bits: the same cipher, with the tag
-- behind the ciphertext.
pub record WebCrypto (g : Gcm) : Type 0 where
  pub web_encrypt : Buffer → Buffer → Buffer → Result Buffer
  pub web_decrypt : Buffer → Buffer → Buffer → Result Buffer
  pub web_encrypt_lem :
      (key iv plain cipher tag : Buffer)
      → g.seal key iv plain ≡ ok (cipher, tag)
      → web_encrypt key iv plain ≡ ok (cipher ++ tag)
  pub web_decrypt_lem :
      (key iv cipher tag : Buffer)
      → length tag ≡ 16
      → web_decrypt key iv (cipher ++ tag) ≡ g.open_sealed key iv tag cipher
