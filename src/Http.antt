-- ===== src/Http.antt =====
-- What the program reads of a `fetch` response.
use blindference.Prelude.{ℕ, String, Bool}
use blindference.Bytes.{Buffer}

pub record Response : Type 0 where
  pub is_ok : Bool
  pub status : ℕ
  pub status_text : String
  pub body : Buffer
