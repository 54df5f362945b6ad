-- ===== src/Cofhe.antt =====
-- The CoFHE client that the program calls (`@cofhe/sdk`): it is not in the repository, so its
-- operations are actions on a state of their own, which stands for the network behind them.
use blindference.Prelude.{ℕ, String, List, Option}
use blindference.Async.{Async}

pub data Encryptable : Type 0 where
  uint8 uint32 uint64 uint128 : ℕ → Encryptable

pub record EncryptedItemInput : Type 0 where
  pub ct_hash : ℕ
  pub security_zone : Option ℕ
  pub utype : ℕ
  pub signature : String

pub data FheType : Type 0 where
  uint_128 : FheType

pub record Permit : Type 0 where
  pub issuer : String
  pub expiration : ℕ

pub record CofheClient (W : Type 0) : Type 0 where
  -- `client.encryptInputs(items).execute()`
  pub encrypt_inputs : List Encryptable → Async W (List EncryptedItemInput)
  pub get_or_create_self_permit : Async W Permit
  pub remove_active_permit : Async W (Unit {0})
  -- `client.decryptForView(handle, type).withPermit(permit).execute()`
  pub decrypt_for_view : ℕ → FheType → Permit → Async W ℕ
