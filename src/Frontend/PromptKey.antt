-- ===== src/Frontend/PromptKey.antt =====
-- network/packages/frontend/src/utils/textPromptKey.ts: the prompt key between 32 bytes and two
-- encrypted 128-bit numbers, and the decryption of the answer. The CoFHE client, the clock, `fetch`
-- and `BigInt` of a text are arguments.
pub mod Bytes
pub mod Output
pub mod Answers
pub mod Keys
unfoldable pub use Bytes.{bigint_from_bytes, combine_key_halves}
unfoldable pub use Output.{decrypt_packed}
use blindference.Prelude.{
  ℕ, zero, suc, ◌+◌, ◌/◌, String, Bool, not, ◌==◌, ltb, if◌then◌else◌, List, [], ◌∷◌, Option, none,
  some, Result, ok, err, length, replicate, drop, get_elem?, decimal, ◌<+>◌, any_of, includes,
  text_length, strip_slash, or_text,
}
use blindference.Bytes.{Buffer, subarray, write_at}
use blindference.Http.{Response}
use blindference.Crypto.{Gcm, WebCrypto}
use blindference.Async.{Async, pure, throw, lift, try_catch, throw_when, ◌>>=◌, ◌>>◌}
use blindference.Cofhe.{CofheClient, EncryptedItemInput, Permit, uint128, uint_128}

abbrev cofhe_fetch_error_patterns : List String
cofhe_fetch_error_patterns =
    "Failed to fetch" ∷ "Failed to fetch FHE key and CRS" ∷ "Error serializing FHE publicKey"
    ∷ "Error serializing CRS" ∷ "NetworkError" ∷ []

unfoldable pub is_cofhe_fetch_error : String → Bool
unfolding includes
is_cofhe_fetch_error msg = any_of (λ p. includes msg p) cofhe_fetch_error_patterns

pub record SerializedEncryptedInput : Type 0 where
  pub ct_hash : String
  pub security_zone : Option ℕ
  pub utype : ℕ
  pub signature : String

pub record EncryptedPromptKeyPayload : Type 0 where
  pub high : String
  pub low : String
  pub high_input : SerializedEncryptedInput
  pub low_input : SerializedEncryptedInput

unfoldable pub serialize_encrypted_input : EncryptedItemInput → SerializedEncryptedInput
serialize_encrypted_input input = record {
  ct_hash = decimal input.ct_hash;
  security_zone = input.security_zone;
  utype = input.utype;
  signature = input.signature;
}

-- `result[i]`, whose use throws where the client returned fewer items.
abbrev pub item_at : List EncryptedItemInput → ℕ → Result EncryptedItemInput
item_at items i = elim (get_elem? items i) [
  | none ↦ err "TypeError: Cannot read properties of undefined (reading 'ctHash')"
  | some item ↦ ok item
]

module _ {W : Type 0} (client : CofheClient W) where
  unfoldable pub encrypt_prompt_key_for_text_request : Buffer → Async W EncryptedPromptKeyPayload
  unfolding throw_when serialize_encrypted_input ◌>>◌
  encrypt_prompt_key_for_text_request prompt_key = do
    throw_when (not (length prompt_key == 32))
        ("Prompt key must be 32 bytes, received " <+> decimal (length prompt_key))
    let high = bigint_from_bytes (subarray 0 16 prompt_key)
    let low = bigint_from_bytes (subarray 16 32 prompt_key)
    let attempt = client.encrypt_inputs (uint128 high ∷ uint128 low ∷ [])
    result ← try_catch attempt (λ e. if is_cofhe_fetch_error e then attempt else throw e)
    high_input ← lift (item_at result 0)
    low_input ← lift (item_at result 1)
    pure (record {
      high = decimal high_input.ct_hash;
      low = decimal low_input.ct_hash;
      high_input = serialize_encrypted_input high_input;
      low_input = serialize_encrypted_input low_input;
    })

  -- The permit to decrypt with: an expired one is replaced. `now` gives milliseconds.
  unfoldable pub fresh_permit : Async W ℕ → Async W Permit
  unfolding ◌>>◌
  fresh_permit now = do
    permit ← client.get_or_create_self_permit
    now_ms ← now
    if ltb permit.expiration (now_ms / 1000)
        then (do client.remove_active_permit; client.get_or_create_self_permit)
        else pure permit

  unfoldable pub decrypt_output_key :
      Async W ℕ → (String → Result ℕ) → String → String → Async W Buffer
  unfolding fresh_permit
  decrypt_output_key now big_int high_handle low_handle = do
    permit ← fresh_permit now
    high_hash ← lift (big_int high_handle)
    high ← client.decrypt_for_view high_hash uint_128 permit
    low_hash ← lift (big_int low_handle)
    low ← client.decrypt_for_view low_hash uint_128 permit
    pure (combine_key_halves high low)

unfoldable pub download_and_decrypt_text_output :
    {W : Type 0} (g : Gcm)
    → WebCrypto g
    → Option String
    → (String → Async W Response)
    → String
    → Buffer
    → Async W g.Text
unfolding throw_when ◌>>◌
download_and_decrypt_text_output g web gateway_url fetch output_cid key = do
  let gateway_base_url = strip_slash (or_text gateway_url "https://ipfs.io/ipfs")
  let url = gateway_base_url <+> "/" <+> output_cid
  response ← fetch url
  throw_when (not response.is_ok) (
      "Failed to download encrypted output from IPFS: "
      <+> decimal response.status
      <+> " "
      <+> response.status_text
      <+> " (CID="
      <+> output_cid
      <+> ", len="
      <+> decimal (text_length output_cid)
      <+> ")")
  lift (decrypt_packed g web response.body key)
