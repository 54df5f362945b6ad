-- ===== src/Shared/Aes/Laws.antt =====
-- The shared layout and the shared key halves.
use blindference.Prelude.{
  ℕ, ◌^◌, ◌<◌, ◌≡◌, refl, ◌++◌, ◌>>=◌, ok, length, length-append, le→ltb_false, arith,
}
use blindference.Bytes.{Buffer, be_bytes}
use blindference.Bytes.Laws.{be_bytes-IsBytes}
use blindference.Bytes.Layout.{subarray-layout_iv, subarray-layout_tag, drop-layout}
use blindference.Bytes.HexLaws.{pad-to_string_16, to_hex-append, decode_hex-to_hex}
use blindference.Prelude.{All-append}
use blindference.Crypto.{Gcm}
use blindference.Shared.Aes.{
  encrypt_text, pack_payload, unpack_payload, decrypt_blob, combine_key_from_fhe,
}

-- What the shared layout cuts a buffer of at least 32 bytes into.
pub unpack_layout :
    (iv tag text : Buffer)
    → length iv ≡ 16
    → length tag ≡ 16
    → unpack_payload (iv ++ (tag ++ text))
      ≡ ok (record { iv = iv; auth_tag = tag; ciphertext = text })
unfolding unpack_payload
unpack_layout iv tag text hi ht =
    let long =
      le→ltb_false (length (iv ++ (tag ++ text))) 32
        (omega (arith, length-append iv (tag ++ text), length-append tag text)) in
    rw (
      long,
      subarray-layout_iv {k = 32} iv tag text hi ht refl,
      subarray-layout_tag {k = 32} iv tag text hi ht refl,
      drop-layout {k = 32} iv tag text hi ht refl,
    )

-- A text sealed, packed and opened by the shared functions is the text, for a key of 32 bytes.
pub decrypt_blob-pack-encrypt_text :
    (g : Gcm) (random_bytes : ℕ → Buffer) (text : g.Text) (key : Buffer)
    → ((n : ℕ) → length (random_bytes n) ≡ n)
    → length key ≡ 32
    → (do
      payload ← encrypt_text g random_bytes text key
      packed ← pack_payload payload
      decrypt_blob g packed key)
      ≡ ok text
unfolding encrypt_text pack_payload decrypt_blob
decrypt_blob-pack-encrypt_text g random_bytes text key draws h =
    let iv = random_bytes 16 in
    let ((cipher, tag), sealed) =
      g.seals key iv (g.encode text) h (λ bare. let drawn = draws 16 in omega arith) in
    let tag_length = g.length-tag key iv (g.encode text) cipher tag sealed in
    rw (
      h,
      sealed,
      draws 16,
      tag_length,
      unpack_layout iv tag cipher (draws 16) tag_length,
      g.opens key iv (g.encode text) cipher tag sealed,
      g.decode-encode text,
    )

-- Below 2^128, the shared joining gives the halves' 16 bytes each.
pub combine_key_from_fhe-eq-be_bytes :
    (high low : ℕ)
    → high < 256 ^ 16
    → low < 256 ^ 16
    → combine_key_from_fhe high low ≡ be_bytes 16 high ++ be_bytes 16 low
unfolding combine_key_from_fhe
combine_key_from_fhe-eq-be_bytes high low hh hl =
    rw (pad-to_string_16 high hh, pad-to_string_16 low hl, ← to_hex-append)
      (decode_hex-to_hex (be_bytes 16 high ++ be_bytes 16 low) (
        All-append (λ b. b < 256) (be_bytes 16 high) (be_bytes 16 low) (be_bytes-IsBytes 16 high)
          (be_bytes-IsBytes 16 low)))
