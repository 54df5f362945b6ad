-- ===== src/Tests/Storage.antt =====
-- The storage and the commitments of the shared package at concrete inputs.
use blindference.Prelude.{◌≡◌, refl, true, String, [], ◌∷◌, none, some, ok, err}
use blindference.Bytes.{Buffer, be_bytes, be_value}
use blindference.Bytes.Laws.{length-be_bytes, be_bytes-IsBytes}
use blindference.Crypto.Toy.{toy_gcm}
use blindference.Http.{Response}
use blindference.Async.{Async}
use blindference.Shared.Ipfs.{UploadResponse, get_gateway_base_url, upload_to_ipfs}
use blindference.Shared.Commitment.{Sha256}
use blindference.Shared.Commitment.Binding.{build_commitment_hash_binds}

-- A service that keeps the last upload, as the state.
abbrev post : String → Buffer → Async Buffer UploadResponse
post authorization bytes kept = (
  ok (record {
    is_ok = true;
    status = 200;
    status_text = "OK";
    payload = ok (record { cid = some "cid"; json = "{}" });
  }),
  bytes,
)

abbrev served : Buffer → Response
served bytes = record { is_ok = true; status = 200; status_text = "OK"; body = bytes }

abbrev fetch : String → Async Buffer Response
fetch url kept = (ok (served kept), kept)

base : get_gateway_base_url (some "https://g/ipfs/") ≡ "https://g/ipfs"
unfolding get_gateway_base_url
base = refl

abbrev three : Buffer
three = 1 ∷ 2 ∷ 3 ∷ []

unauthorized : upload_to_ipfs post none three [] ≡ (err "PINATA_JWT is not set", [])
unfolding upload_to_ipfs
unauthorized = refl

abbrev sha : Sha256
sha = record {
  digest = λ bytes. be_bytes 32 (be_value bytes);
  length-digest = λ bytes. length-be_bytes 32 (be_value bytes);
  digest-IsBytes = λ bytes. be_bytes-IsBytes 32 (be_value bytes);
}

build_commitment_hash_binds_example : (three ≡ three) × (three ≡ three)
build_commitment_hash_binds_example =
    build_commitment_hash_binds toy_gcm sha three three three three (λ h. refl) (λ h. refl) refl
