-- ===== src/Frontend/CofheHook.antt =====
-- hooks/useCofheClient.ts: the client that the pages use. A client is known by the wallet that it was
-- connected with; what comes back from `connect` is an argument of the second half of `initCofhe`.
pub mod Life
use blindference.Prelude.{
  String, Bool, true, false, not, ◌||◌, ◌&&◌, if◌then◌else◌, Option, none, some, is_some, Result,
  ok, err,
}

pub record CofheHook : Type 0 where
  pub client : Option String
  pub is_ready : Bool
  pub error : Option String

abbrev pub initial : CofheHook
initial = record { client = none; is_ready = false; error = none }

-- `walletClient` and `publicClient`, where both are there.
unfoldable pub begin_init : Option String → CofheHook → CofheHook
begin_init none hook = record {
  client = none;
  is_ready = false;
  error = some "Wallet not connected";
}
begin_init (some wallet) hook = record hook { is_ready = false; error = none }

abbrev pub mock_client : String
mock_client = "mock"

-- The rest of the `try`, and the `catch`. Nothing looks at `cancelled` here.
unfoldable pub end_init : Result String → CofheHook → CofheHook
end_init (ok connected) hook = record { client = some connected; is_ready = true; error = none }
end_init (err e) hook = record { client = none; is_ready = false; error = some e }
