-- ===== src/Frontend/Vault.antt =====
-- What the web client stores on the chain: network/packages/frontend/src/lib/promptKeyStore.ts and
-- lib/inputVault.ts, with the encryption of the risk features (utils/encryption.ts). The account of
-- the wallet client and the read of the vault are arguments.
pub mod Stored
use blindference.Prelude.{
  ℕ, String, Bool, not, ◌==◌, is_some, or_default, if◌then◌else◌, List, [], ◌∷◌, Option, none, some,
  Result, ok, err, length, decimal, ◌<+>◌,
}
use blindference.Async.{Async, pure, lift, throw_when, ◌>>=◌, ◌>>◌}
use blindference.Cofhe.{CofheClient, EncryptedItemInput, uint8, uint32, uint64}
use blindference.Sdk.Agent.{ContractInput}
use blindference.Frontend.Chain.{Call, Chain, send}

-- `toContractInput` of either file
abbrev pub to_contract_input : EncryptedItemInput → ContractInput
to_contract_input item = record {
  ct_hash = item.ct_hash;
  security_zone = or_default item.security_zone 0;
  utype = item.utype;
  signature = item.signature;
}

-- `if (!walletClient.account) throw …`
abbrev pub account_of : Option String → Result String
account_of none = err "Wallet client is missing the active account."
account_of (some account) = ok account

-- The nodes that may decrypt: the user's own address where none is given.
unfoldable pub safe_allowed_nodes : List String → String → List String
safe_allowed_nodes [] account = account ∷ []
safe_allowed_nodes (node ∷ nodes) account = node ∷ nodes

abbrev pub expects_four : ℕ → String
expects_four n =
    "BlindferenceInputVault expects exactly 4 encrypted features, got " <+> decimal n <+> "."

-- The four features, in the order of the vault's arguments.
unfoldable pub four_of : {A : Type 0} → List A → Result (A × A × A × A)
four_of (a ∷ b ∷ c ∷ d ∷ []) = ok (a, b, c, d)
four_of items = err (expects_four (length items))

pub record StoredVaultInputs : Type 0 where
  pub owner : String
  pub stored_at : ℕ
  pub handles : ℕ × ℕ × ℕ × ℕ

pub record RiskFeatures : Type 0 where
  pub credit_score : ℕ
  pub loan_amount : ℕ
  pub account_age : ℕ
  pub prev_defaults : ℕ

module _ {W : Type 0} where
  unfoldable pub encrypt_risk_features :
      CofheClient W → RiskFeatures → Async W (List EncryptedItemInput)
  encrypt_risk_features client features = client.encrypt_inputs (
      uint32 features.credit_score
      ∷ uint64 features.loan_amount
      ∷ uint32 features.account_age
      ∷ uint8 features.prev_defaults
      ∷ [])

  module _ (chain : Chain W) (account : Option String) where
    unfoldable pub store_prompt_key_for_text_request :
        String → EncryptedItemInput → EncryptedItemInput → List String → String → Async W String
    unfolding safe_allowed_nodes send
    store_prompt_key_for_text_request task_id high low allowed_nodes store = do
      user ← lift (account_of account)
      send chain
          (Call.store_key store task_id (to_contract_input high) (to_contract_input low)
            (safe_allowed_nodes allowed_nodes user))
          ("PromptKeyStore transaction failed for task " <+> task_id <+> ".")

    unfoldable pub store_encrypted_risk_inputs_in_vault :
        List EncryptedItemInput → String → String → Async W String
    unfolding four_of send
    store_encrypted_risk_inputs_in_vault encrypted_inputs loan_id vault = do
      user ← lift (account_of account)
      (credit_score, loan_amount, account_age, prev_defaults) ← lift (four_of encrypted_inputs)
      send chain
          (Call.store_encrypted_inputs vault loan_id (to_contract_input credit_score)
            (to_contract_input loan_amount) (to_contract_input account_age)
            (to_contract_input prev_defaults))
          ("Input vault transaction failed for loan " <+> loan_id <+> ".")

  -- `read` is the contract's `storedInputHandles`.
  unfoldable pub read_stored_risk_input_handles :
      (String → String → Async W (String × ℕ × ℕ × ℕ × ℕ × ℕ))
      → String
      → String
      → Async W StoredVaultInputs
  read_stored_risk_input_handles read loan_id vault =
      read vault loan_id >>= λ (owner, stored_at, score, amount, age, defaults).
      pure
        (record { owner = owner; stored_at = stored_at; handles = (score, amount, age, defaults) })
