-- ===== src/Frontend/PromptKey/Answers.antt =====
-- Opening an answer in the web client agrees with the agent SDK's.
use blindference.Prelude.{
  ◌+◌, ◌-◌, ◌≤◌, ◌≡◌, refl, ◌++◌, append-nil, ◌>>=◌, length, drop, replicate, take_all, drop_all,
  length-append, length-take, length-drop, length-replicate, take_append_exact, le→ltb_false, arith,
}
use blindference.Bytes.{Buffer, subarray, write_at}
use blindference.Crypto.{Gcm, WebCrypto}
use blindference.Sdk.Encryption.{decrypt_aes_gcm, unpack_aes_payload}
use blindference.Frontend.PromptKey.Output.{cipher_with_tag, decrypt_packed}

-- Two buffers written one behind the other into a buffer of their total length.
write_at-write_at :
    (a b zeros : Buffer)
    → length zeros ≡ length a + length b
    → write_at (length a) b (write_at 0 a zeros) ≡ a ++ b
write_at-write_at a b zeros h =
    let rest = drop (0 + length a) zeros in
    let rest_length : length rest ≡ length b = omega (arith, length-drop (0 + length a) zeros) in
    let total = length-append a rest in
    let first : write_at 0 a zeros ≡ a ++ rest = rw (take_all (length zeros - 0) a (omega arith)) in
    rw (
      first,
      take_append_exact (length a) a rest refl,
      take_all (length (a ++ rest) - length a) b (omega arith),
      drop_all (length a + length b) (a ++ rest) (omega arith),
      append-nil b,
    )

-- `crypto.subtle.decrypt` is handed the ciphertext followed by the tag.
cipher_with_tag-eq-append : (text tag : Buffer) → cipher_with_tag text tag ≡ text ++ tag
unfolding cipher_with_tag
cipher_with_tag-eq-append text tag =
    write_at-write_at text tag (replicate (length text + length tag) 0)
      (length-replicate (length text + length tag) 0)

-- On a buffer of at least 28 bytes the web client opens what the agent SDK unpacks and opens.
pub decrypt_packed-eq-sdk :
    (g : Gcm) (web : WebCrypto g) (packed key : Buffer)
    → 28 ≤ length packed
    → decrypt_packed g web packed key
      ≡ (do p ← unpack_aes_payload packed; decrypt_aes_gcm g p.ciphertext key p.iv p.auth_tag)
unfolding decrypt_packed unpack_aes_payload decrypt_aes_gcm
decrypt_packed-eq-sdk g web packed key h =
    let long = le→ltb_false (length packed) 28 h in
    let tag_length : length (subarray 12 28 packed) ≡ 16 =
      omega (arith, length-take 16 (drop 12 packed), length-drop 12 packed) in
    rw (
      long,
      cipher_with_tag-eq-append (drop 28 packed) (subarray 12 28 packed),
      web.web_decrypt_lem key (subarray 0 12 packed) (drop 28 packed) (subarray 12 28 packed)
          tag_length,
    )
