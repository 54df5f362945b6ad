-- ===== src/Sdk/Ipfs.antt =====
-- The IPFS functions of network/packages/agent-sdk/src/encryption.ts. `fetch` and the environment
-- are arguments; a failure to read a response's body is a failure of `fetch`.
pub mod Gateways
use blindference.Prelude.{
  ℕ, String, Bool, not, if◌then◌else◌, List, [], ◌∷◌, ◌++◌, Option, none, some, Result, ok, err,
  length, decimal, ◌<+>◌, join, strip_slash, text_truthy, truthy, or_default,
}
use blindference.Bytes.{Buffer}
use blindference.Http.{Response}
use blindference.Async.{Async, pure, throw, throw_when, ◌>>=◌, ◌>>◌}

abbrev default_ipfs_gateways : List String
default_ipfs_gateways =
    "https://ipfs.io/ipfs" ∷ "https://gateway.pinata.cloud/ipfs" ∷ "https://dweb.link/ipfs" ∷ []

-- `...(gateway ? [gateway] : [])`
abbrev listed : Option String → List String
listed none = []
listed (some gateway) = if text_truthy gateway then gateway ∷ [] else []

-- `process.env.BLINDFERENCE_IPFS_GATEWAY || process.env.IPFS_GATEWAY`, then the caller's gateway,
-- then the public ones.
unfoldable pub gateways_of : Option String → Option String → Option String → List String
gateways_of blindference_gateway ipfs_gateway gateway =
    listed (if truthy blindference_gateway then blindference_gateway else ipfs_gateway)
    ++ (listed gateway ++ default_ipfs_gateways)

unfoldable pub url_of : String → String → String
unfolding strip_slash
url_of gateway cid = strip_slash gateway <+> "/" <+> cid

-- The body of a response that is OK, or the line that is noted in `errors`.
abbrev pub judge : String → Result Response → Result Buffer
judge url (ok resp) =
    if resp.is_ok
    then ok resp.body
    else err (url <+> ": " <+> decimal resp.status <+> " " <+> resp.status_text)
judge url (err e) = err (url <+> ": " <+> e)

abbrev pub failure : ℕ → String → List String → String
failure attempts cid errors =
    "IPFS download failed after "
    <+> decimal attempts
    <+> " attempts (cid="
    <+> cid
    <+> "). Errors: "
    <+> join "; " errors

module _ {W : Type 0} (fetch : String → Async W Response) (cid : String) where
  -- The loop over the gateways that are left, with the errors noted so far; `attempts` is the number
  -- of gateways in all.
  unfoldable pub try_gateways : ℕ → List String → List String → Async W Buffer
  unfolding url_of
  try_gateways attempts errors [] w = (err (failure attempts cid errors), w)
  try_gateways attempts errors (g ∷ gateways) w =
      let (response, w') = fetch (url_of g cid) w in
      elim (judge (url_of g cid) response) [
        | ok body ↦ (ok body, w')
        | err line ↦ try_gateways attempts (errors ++ line ∷ []) gateways w'
      ]

  unfoldable pub download_from_ipfs : Option String → Option String → Option String → Async W Buffer
  unfolding gateways_of try_gateways
  download_from_ipfs blindference_gateway ipfs_gateway gateway =
      let gateways = gateways_of blindference_gateway ipfs_gateway gateway in
      try_gateways (length gateways) [] gateways

-- Pinata's answer to an upload; the file name and the form's headers go along unread.
pub record PinataResponse : Type 0 where
  pub is_ok : Bool
  pub status : ℕ
  pub status_text : String
  pub ipfs_hash : String

-- `post payload authorization filename` stands for the request to Pinata.
unfoldable pub upload_to_ipfs :
    {W : Type 0}
    → (Buffer → String → String → Async W PinataResponse)
    → Buffer
    → String
    → Option String
    → Async W String
unfolding throw_when ◌>>◌
upload_to_ipfs post payload jwt filename = do
  resp ← post payload ("Bearer " <+> jwt) (or_default filename "blindference-payload.bin")
  throw_when (not resp.is_ok)
      ("IPFS upload failed: " <+> decimal resp.status <+> " " <+> resp.status_text)
  pure resp.ipfs_hash
