-- ===== src/Sdk/Agent/Opening.antt =====
-- The opening of a downloaded answer (agent.ts, `_downloadAndDecryptOutput`).
use blindference.Prelude.{Result, ◌>>=◌}
use blindference.Bytes.{Buffer}
use blindference.Crypto.{Gcm}
use blindference.Sdk.Encryption.{unpack_aes_payload, decrypt_aes_gcm}

unfoldable pub open_packed : (g : Gcm) → Buffer → Buffer → Result g.Text
open_packed g key packed = do
  p ← unpack_aes_payload packed
  decrypt_aes_gcm g p.ciphertext key p.iv p.auth_tag
