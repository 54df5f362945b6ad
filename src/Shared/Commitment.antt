-- ===== src/Shared/Commitment.antt =====
-- network/packages/shared/src/commitment.ts. SHA-256 of Node's `crypto` is an argument; a text and its
-- UTF-8 are those of the cipher's interface.
pub mod Binding
use blindference.Prelude.{ℕ, ◌≡◌, List, ◌++◌, length}
use blindference.Bytes.{Buffer, IsBytes}
use blindference.Bytes.Hex.{to_hex}
use blindference.Crypto.{Gcm}

-- `createHash('sha256').update(…).digest()`
pub record Sha256 : Type 0 where
  pub digest : Buffer → Buffer
  pub length-digest : (bytes : Buffer) → length (digest bytes) ≡ 32
  pub digest-IsBytes : (bytes : Buffer) → IsBytes (digest bytes)

module _ (g : Gcm) (sha : Sha256) where
  unfoldable pub hash_output : g.Text → Buffer
  hash_output text = sha.digest (g.encode text)

  unfoldable pub build_commitment_hash : g.Text → Buffer → List ℕ
  build_commitment_hash output_cid output_hash =
      to_hex (sha.digest (g.encode output_cid ++ output_hash))
