-- ===== src/Sdk/Encryption/Payloads.antt =====
-- The packed layout of the agent SDK, and sealing followed by opening.
use blindference.Prelude.{
  ℕ, ◌+◌, ◌≡◌, ◌<◌, drop, ltb→lt, refl, ◌++◌, ◌>>=◌, ok, err, length, length-append, lt→ltb,
  le→ltb_false, ltb, Bool-cases, inl, inr, arith,
}
use blindference.Bytes.{Buffer, subarray}
use blindference.Bytes.Layout.{subarray-layout_iv, subarray-layout_tag, drop-layout, layout_whole}
use blindference.Crypto.{Gcm}
use blindference.Sdk.Encryption.{
  Payload, encrypt_aes_gcm, decrypt_aes_gcm, pack_aes_payload, unpack_aes_payload,
}

length-pack :
    (iv tag text : Buffer)
    → length (pack_aes_payload iv tag text) ≡ length iv + (length tag + length text)
unfolding pack_aes_payload
length-pack iv tag text = omega (arith, length-append iv (tag ++ text), length-append tag text)

unpack_short :
    (packed : Buffer)
    → length packed < 28
    → unpack_aes_payload packed ≡ err "Packed payload too short (must be at least 28 bytes)"
unfolding unpack_aes_payload
unpack_short packed h = rw (lt→ltb _ _ h)

-- Unpacking a packed payload, with an IV of 12 bytes and a tag of 16, gives its parts back.
pub unpack-pack :
    (iv tag text : Buffer)
    → length iv ≡ 12
    → length tag ≡ 16
    → unpack_aes_payload (pack_aes_payload iv tag text)
      ≡ ok (record { iv = iv; auth_tag = tag; ciphertext = text })
unfolding unpack_aes_payload pack_aes_payload
unpack-pack iv tag text hi ht =
    let long =
      le→ltb_false (length (iv ++ (tag ++ text))) 28 (omega (arith, length-pack iv tag text)) in
    rw (
      long,
      subarray-layout_iv {k = 28} iv tag text hi ht refl,
      subarray-layout_tag {k = 28} iv tag text hi ht refl,
      drop-layout {k = 28} iv tag text hi ht refl,
    )

-- Packing what a buffer unpacks to gives the buffer.
pub pack-unpack :
    (packed : Buffer) (p : Payload)
    → unpack_aes_payload packed ≡ ok p
    → pack_aes_payload p.iv p.auth_tag p.ciphertext ≡ packed
unfolding unpack_aes_payload pack_aes_payload
pack-unpack packed p h = elim (Bool-cases (ltb (length packed) 28)) [
  | inl short ↦ cc (h, unpack_short packed (ltb→lt _ _ short))
  | inr long ↦
      let cut_iv : subarray 0 12 packed ≡ p.iv = ground arith in
      let cut_tag : subarray 12 28 packed ≡ p.auth_tag = ground arith in
      let cut_text : drop 28 packed ≡ p.ciphertext = ground arith in
      rw (← cut_iv, ← cut_tag, ← cut_text) (layout_whole 12 28 packed (omega arith))
]

-- A sealed, packed, unpacked and opened prompt is the prompt, for a key of 32 bytes.
pub decrypt-unpack-pack-encrypt :
    (g : Gcm) (random_bytes : ℕ → Buffer) (text : g.Text) (key : Buffer)
    → ((n : ℕ) → length (random_bytes n) ≡ n)
    → length key ≡ 32
    → (do
      p ← encrypt_aes_gcm g random_bytes text key
      q ← unpack_aes_payload (pack_aes_payload p.iv p.auth_tag p.ciphertext)
      decrypt_aes_gcm g q.ciphertext key q.iv q.auth_tag)
      ≡ ok text
unfolding encrypt_aes_gcm decrypt_aes_gcm
decrypt-unpack-pack-encrypt g random_bytes text key draws h =
    let ((cipher, tag), sealed) =
      g.seals key (random_bytes 12) (g.encode text) h
        (λ bare. let drawn = draws 12 in omega arith) in
    let tag_length = g.length-tag key (random_bytes 12) (g.encode text) cipher tag sealed in
    rw (
      sealed,
      unpack-pack (random_bytes 12) tag cipher (draws 12) tag_length,
      g.opens key (random_bytes 12) (g.encode text) cipher tag sealed,
      g.decode-encode text,
    )
