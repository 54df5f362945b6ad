-- ===== src/Interop.antt =====
-- The TypeScript packages read what one another write: three joinings of the key halves, and two
-- packed layouts. The nodes use the shared layout (an IV of 16 bytes); the agent SDK and the web
-- client's text page write and read an IV of 12 bytes.
use blindference.Prelude.{
  ℕ, ◌^◌, ◌≤◌, ◌<◌, ◌≡◌, sym, ap, ◌∙◌, ◌++◌, append_assoc, ok, ◌>>=◌, length, take, drop,
  take-append-drop, length-append, length-take, length-drop, arith,
}
use blindference.Bytes.{Buffer}
use blindference.Sdk.Encryption
use blindference.Sdk.Encryption.{Payload, pack_aes_payload, unpack_aes_payload}
use blindference.Sdk.Encryption.Keys.{combine-eq-be_bytes}
use blindference.Sdk.Encryption.Payloads.{unpack-pack}
use blindference.Shared.Aes.{EncryptedPayload, pack_payload, unpack_payload, combine_key_from_fhe}
use blindference.Shared.Aes.Laws.{unpack_layout, combine_key_from_fhe-eq-be_bytes}
use blindference.Frontend.PromptKey
use blindference.Frontend.PromptKey.Keys.{combine_key_halves-eq-be_bytes}

-- The agent SDK, the shared package and the web client join two halves below 2^128 to the same
-- key.
pub combine_agree :
    (high low : ℕ)
    → high < 256 ^ 16
    → low < 256 ^ 16
    → (Encryption.combine_key_halves high low ≡ combine_key_from_fhe high low)
      × (PromptKey.combine_key_halves high low ≡ combine_key_from_fhe high low)
combine_agree high low hh hl =
    let shared = sym (combine_key_from_fhe-eq-be_bytes high low hh hl) in
    (combine-eq-be_bytes high low hh hl ∙ shared, combine_key_halves-eq-be_bytes high low ∙ shared)

regroup : (a b c d e : Buffer) → (a ++ b) ++ ((c ++ d) ++ e) ≡ a ++ ((b ++ c) ++ (d ++ e))
regroup a b c d e = simp append_assoc

-- Packed bytes, cut n bytes later than they were joined, in the IV and in the tag.
shift_cut :
    (n : ℕ) (iv tag text : Buffer)
    → iv ++ (tag ++ text) ≡ (iv ++ take n tag) ++ ((drop n tag ++ take n text) ++ drop n text)
shift_cut n iv tag text =
    let joined = regroup iv (take n tag) (drop n tag) (take n text) (drop n text) in
    sym (rw (take-append-drop n tag, take-append-drop n text) at joined)

-- What the agent SDK packs, with an IV of 12 bytes and at least 4 bytes of ciphertext, the shared
-- package cuts wrongly: the IV runs into the tag, and the tag into the ciphertext.
pub shared_miscuts_sdk :
    (iv tag text : Buffer)
    → length iv ≡ 12
    → length tag ≡ 16
    → 4 ≤ length text
    → unpack_payload (pack_aes_payload iv tag text)
      ≡ ok (record {
        iv = iv ++ take 4 tag;
        auth_tag = drop 4 tag ++ take 4 text;
        ciphertext = drop 4 text;
      })
unfolding pack_aes_payload
shared_miscuts_sdk iv tag text hi ht hx =
    ap unpack_payload (shift_cut 4 iv tag text)
    ∙ unpack_layout (iv ++ take 4 tag) (drop 4 tag ++ take 4 text) (drop 4 text)
        (omega (arith, length-append iv (take 4 tag), length-take 4 tag))
        (omega
          (arith, length-append (drop 4 tag) (take 4 text), length-drop 4 tag, length-take 4 text))

recut :
    (iv tag text : Buffer)
    → iv ++ (tag ++ text) ≡ take 12 iv ++ ((drop 12 iv ++ take 12 tag) ++ (drop 12 tag ++ text))
recut iv tag text =
    let joined = regroup (take 12 iv) (drop 12 iv) (take 12 tag) (drop 12 tag) text in
    rw (take-append-drop 12 iv, take-append-drop 12 tag) at joined

-- What the shared package packs, with an IV and a tag of 16 bytes, the agent SDK cuts wrongly: the
-- last 4 bytes of the IV go to the tag, and the last 4 of the tag to the ciphertext.
pub sdk_miscuts_shared :
    (payload : EncryptedPayload)
    → length payload.iv ≡ 16
    → length payload.auth_tag ≡ 16
    → (pack_payload payload >>= unpack_aes_payload)
      ≡ ok (record {
        iv = take 12 payload.iv;
        auth_tag = drop 12 payload.iv ++ take 12 payload.auth_tag;
        ciphertext = drop 12 payload.auth_tag ++ payload.ciphertext;
      })
unfolding pack_payload
sdk_miscuts_shared payload hi ht =
    let front = take 12 payload.iv in
    let middle = drop 12 payload.iv ++ take 12 payload.auth_tag in
    let back = drop 12 payload.auth_tag ++ payload.ciphertext in
    let cut = unpack-pack front middle back (omega (arith, length-take 12 payload.iv)) (
      omega (
        arith,
        length-append (drop 12 payload.iv) (take 12 payload.auth_tag),
        length-drop 12 payload.iv,
        length-take 12 payload.auth_tag,
      )) in
    rw (hi, ht, recut payload.iv payload.auth_tag payload.ciphertext)
      (unfold pack_aes_payload in cut)
