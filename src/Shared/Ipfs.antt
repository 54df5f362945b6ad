-- ===== src/Shared/Ipfs.antt =====
-- network/packages/shared/src/ipfs.ts. `fetch` and the environment are arguments; the names of the
-- form's fields go along unread.
pub mod Stored
use blindference.Prelude.{
  ℕ, String, Bool, not, if◌then◌else◌, Option, none, some, Result, ok, err, or_default, or_text,
  truthy, decimal, ◌<+>◌, strip_slash,
}
use blindference.Bytes.{Buffer}
use blindference.Http.{Response}
use blindference.Async.{Async, pure, lift, throw_when, ◌>>=◌, ◌>>◌}

-- `payload?.data?.cid`, and the payload as JSON.
pub record PinataPayload : Type 0 where
  pub cid : Option String
  pub json : String

-- The answer of Pinata; reading its body may throw.
pub record UploadResponse : Type 0 where
  pub is_ok : Bool
  pub status : ℕ
  pub status_text : String
  pub payload : Result PinataPayload

unfoldable pub get_pinata_jwt : Option String → Result String
get_pinata_jwt jwt = if truthy jwt then ok (or_default jwt "") else err "PINATA_JWT is not set"

unfoldable pub get_gateway_base_url : Option String → String
unfolding strip_slash
get_gateway_base_url gateway = strip_slash (or_text gateway "https://gateway.pinata.cloud/ipfs")

unfoldable pub url_of : Option String → String → String
unfolding get_gateway_base_url
url_of gateway cid = get_gateway_base_url gateway <+> "/" <+> cid

module _ {W : Type 0} where
  -- `post authorization data` stands for the request.
  unfoldable pub upload_to_ipfs :
      (String → Buffer → Async W UploadResponse) → Option String → Buffer → Async W String
  unfolding get_pinata_jwt throw_when ◌>>◌
  upload_to_ipfs post jwt data_ = do
    token ← lift (get_pinata_jwt jwt)
    response ← post ("Bearer " <+> token) data_
    throw_when (not response.is_ok)
        ("IPFS upload failed: " <+> decimal response.status <+> " " <+> response.status_text)
    payload ← lift response.payload
    throw_when (not (truthy payload.cid)) ("IPFS upload failed: " <+> payload.json)
    pure (or_default payload.cid "")

  unfoldable pub download_from_ipfs :
      (String → Async W Response) → Option String → String → Async W Buffer
  unfolding url_of throw_when ◌>>◌
  download_from_ipfs fetch gateway cid = do
    response ← fetch (url_of gateway cid)
    throw_when (not response.is_ok)
        ("IPFS download failed: " <+> decimal response.status <+> " " <+> response.status_text)
    pure response.body
