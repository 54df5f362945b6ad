-- ===== src/Tests/Encryption.antt =====
-- The key halves and the packed payloads at concrete inputs.
use blindference.Prelude.{
  ℕ, ◌≡◌, ◌^◌, ◌<◌, refl, ◌++◌, List, [], ◌∷◌, ok, err, Result, replicate, length-replicate, take,
  drop, ◌>>=◌, arith, zero, suc, none,
}
use blindference.Bytes.{Buffer, IsBytes, be_bytes}
use blindference.Crypto.Toy.{toy_gcm, zero_bytes}
use blindference.Cofhe.{CofheClient, EncryptedItemInput}
use blindference.Sdk.Encryption.{
  KeyHalves, pack_aes_payload, unpack_aes_payload, encrypt_aes_gcm, decrypt_aes_gcm,
  split_key_for_cofhe,
}
use blindference.Sdk.Encryption
use blindference.Sdk.Encryption.Keys.{combine-split}
use blindference.Sdk.Encryption.Payloads.{unpack-pack, decrypt-unpack-pack-encrypt}
use blindference.Shared.Aes.{unpack_payload, combine_key_from_fhe}
use blindference.Interop.{combine_agree, shared_miscuts_sdk}
use blindference.Frontend.PromptKey
use blindference.Frontend.PromptKey.{
  decrypt_packed, encrypt_prompt_key_for_text_request, is_cofhe_fetch_error,
}
use blindference.Frontend.PromptKey.Keys.{bigint_from_bytes-eq-be_value}

abbrev iv : Buffer
iv = replicate 12 7

abbrev tag : Buffer
tag = replicate 16 9

abbrev pub text : Buffer
text = 1 ∷ 2 ∷ 3 ∷ 4 ∷ 5 ∷ []

abbrev pub key : Buffer
key = replicate 32 1

key-IsBytes : IsBytes key
key-IsBytes = ground arith

unpack-pack_example :
    unpack_aes_payload (pack_aes_payload iv tag text)
    ≡ ok (record { iv = iv; auth_tag = tag; ciphertext = text })
unpack-pack_example = unpack-pack iv tag text refl refl

unpacked :
    unpack_aes_payload (replicate 12 7 ++ (replicate 16 9 ++ text))
    ≡ ok (record { iv = iv; auth_tag = tag; ciphertext = text })
unfolding unpack_aes_payload
unpacked = refl

decrypt-unpack-pack-encrypt_example :
    (do
      p ← encrypt_aes_gcm toy_gcm zero_bytes text key
      q ← unpack_aes_payload (pack_aes_payload p.iv p.auth_tag p.ciphertext)
      decrypt_aes_gcm toy_gcm q.ciphertext key q.iv q.auth_tag)
    ≡ ok text
decrypt-unpack-pack-encrypt_example =
    decrypt-unpack-pack-encrypt toy_gcm zero_bytes text key (λ n. length-replicate n 0) refl

combine-split_example :
    (halves : KeyHalves) × (split_key_for_cofhe key ≡ ok halves)
    × (Encryption.combine_key_halves halves.high halves.low ≡ key)
combine-split_example = combine-split key key-IsBytes refl

below : 5 < 256 ^ 16
below = ground arith

combine_agree_example :
    (Encryption.combine_key_halves 5 5 ≡ combine_key_from_fhe 5 5)
    × (PromptKey.combine_key_halves 5 5 ≡ combine_key_from_fhe 5 5)
combine_agree_example = combine_agree 5 5 below below

shared_miscuts_sdk_example :
    unpack_payload (pack_aes_payload iv tag text)
    ≡ ok (record {
      iv = iv ++ take 4 tag;
      auth_tag = drop 4 tag ++ take 4 text;
      ciphertext = drop 4 text;
    })
shared_miscuts_sdk_example = shared_miscuts_sdk iv tag text refl refl (omega arith)

combine_key_halves-eq-be_bytes_example :
    PromptKey.combine_key_halves 5 6 ≡ be_bytes 16 5 ++ be_bytes 16 6
combine_key_halves-eq-be_bytes_example = PromptKey.Keys.combine_key_halves-eq-be_bytes 5 6

-- A client whose first call fails to fetch, and whose next one succeeds; it counts the calls.
abbrev item : EncryptedItemInput
item = record { ct_hash = 77; security_zone = none; utype = 6; signature = "0x" }

abbrev answer : ℕ → Result (List EncryptedItemInput) × ℕ
answer zero = (err "Failed to fetch", 1)
answer (suc n) = (ok (item ∷ item ∷ []), suc (suc n))

abbrev pub flaky : CofheClient ℕ
flaky = record {
  encrypt_inputs = λ items n. answer n;
  get_or_create_self_permit = λ n. (ok (record { issuer = "0x1"; expiration = 5 }), n);
  remove_active_permit = λ n. (ok tt, n);
  decrypt_for_view = λ handle type permit n. (ok handle, n);
}
