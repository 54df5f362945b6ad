-- ===== src/Frontend/Wizard/Sealed.antt =====
-- What the wizard seals, the shared package opens.
use blindference.Prelude.{
  ℕ, ◌-◌, ◌≡◌, refl, ◌++◌, ok, ◌>>=◌, length, length-append, take_append_exact, drop_append_exact,
  arith,
}
use blindference.Bytes.{Buffer}
use blindference.Crypto.{Gcm, WebCrypto}
use blindference.Sdk.Encryption.{pack_aes_payload}
use blindference.Shared.Aes.{decrypt_blob}
use blindference.Shared.Aes.Laws.{unpack_layout}
use blindference.Frontend.Page.Seal.{pack_payload}
use blindference.Frontend.Page.Sealed.{pack_payload-eq-append}
use blindference.Frontend.Wizard.{encrypt_text}

-- What the wizard seals under a key of 32 bytes and packs, the shared package unpacks and opens to
-- the same text.
pub encrypt_text-decrypt_blob :
    (g : Gcm) (web : WebCrypto g) (random_bytes : ℕ → Buffer) (text : g.Text) (key : Buffer)
    → ((n : ℕ) → length (random_bytes n) ≡ n)
    → length key ≡ 32
    → (do
      payload ← encrypt_text g web random_bytes text key
      decrypt_blob g (pack_payload payload) key)
      ≡ ok text
unfolding encrypt_text decrypt_blob pack_aes_payload
encrypt_text-decrypt_blob g web random_bytes text key draws size =
    let iv = random_bytes 16 in
    let ((cipher, tag), sealed) =
      g.seals key iv (g.encode text) size (λ bare. let drawn = draws 16 in omega arith) in
    let tag_length = g.length-tag key iv (g.encode text) cipher tag sealed in
    let cut : length (cipher ++ tag) - 16 ≡ length cipher =
      omega (arith, length-append cipher tag) in
    rw
      (
        size,
        web.web_encrypt_lem key iv (g.encode text) cipher tag sealed,
        cut,
        take_append_exact (length cipher) cipher tag refl,
        drop_append_exact (length cipher) cipher tag refl,
        pack_payload-eq-append (record { iv = iv; auth_tag = tag; ciphertext = cipher }),
        unpack_layout iv tag cipher (draws 16) tag_length,
        g.opens key iv (g.encode text) cipher tag sealed,
        g.decode-encode text,
      )
      refl
