-- ===== src/Frontend/Risk/Submitted.antt =====
-- What a risk submission that goes through is made of, and that the page always comes to rest.
use blindference.Prelude.{
  ℕ, String, ◌≡◌, refl, Bool, false, List, [], ◌∷◌, some, Result, ok, err, to_lower_case, ◌<+>◌,
}
use blindference.Async.{Async}
use blindference.Cofhe.{EncryptedItemInput}
use blindference.Frontend.Chain.{Call}
use blindference.Frontend.Chain.Fees.{Confirmed}
use blindference.Frontend.Vault.{
  StoredVaultInputs, to_contract_input, encrypt_risk_features, read_stored_risk_input_handles,
}
use blindference.Frontend.History.{HistoryEntry}
use blindference.Frontend.Page.Submit.{QuorumPreview}
use blindference.Frontend.Risk.Store.{InferenceState, act}
use blindference.Frontend.Risk.Submit.{
  RiskServices, RiskPage, RiskWallet, RiskGuard, RiskConnection, NodePermit, features_of, loan_id,
  binding_of, sharing_request, risk_submission, attempt, settle, risk_guard, after_guard,
  handle_risk_submit,
}

-- Neither spinner turns.
abbrev pub Rests : InferenceState → Type 0
Rests s = (s.is_encrypting ≡ false) × (s.is_submitting ≡ false)

-- The features were encrypted, stored on the chain and read back, one step behind the other, and the
-- owner that was read is the wallet.
pub record Stored {W : Type 0} (services : RiskServices W) (fits : List HistoryEntry → Bool)
    (wallet : RiskWallet W) (state : InferenceState) (now : ℕ) (items : List EncryptedItemInput)
    (tx : String) (stored : StoredVaultInputs) (start end : W) : Type 0 where
  pub features : EncryptedItemInput × EncryptedItemInput × EncryptedItemInput × EncryptedItemInput
  pub before : W
  pub after : W
  pub encrypted : encrypt_risk_features wallet.client (features_of state) start ≡ (ok items, before)
  pub four : items ≡ features.0 ∷ features.1 ∷ features.2 ∷ features.3 ∷ []
  pub sent :
      Confirmed services.chain
        (Call.store_encrypted_inputs wallet.vault
          (loan_id services fits wallet state now)
          (to_contract_input features.0)
          (to_contract_input features.1)
          (to_contract_input features.2)
          (to_contract_input features.3))
        tx
        before
        after
  pub read :
      read_stored_risk_input_handles services.stored_input_handles
        (loan_id services fits wallet state now)
        wallet.vault
        after
      ≡ (ok stored, end)
  pub owned : to_lower_case stored.owner ≡ to_lower_case wallet.address

module _ {W : Type 0} where
  settle-Rests : (r : Result (Unit {0})) (page : RiskPage W) → Rests (settle r page).store
  unfolding settle act
  settle-Rests (ok u) page = (refl, refl)
  settle-Rests (err e) page = (refl, refl)

  module _ (services : RiskServices W) (fits : List HistoryEntry → Bool) (now : ℕ) where
    after_guard-Rests :
        (guard : RiskGuard W) (page : RiskPage W)
        → Rests page.store
        → Rests (after_guard services fits now guard page).store
    unfolding after_guard act
    after_guard-Rests (RiskGuard.refused msg) page h = h
    after_guard-Rests (RiskGuard.passed wallet) page h =
        let out = attempt services fits wallet page.store now page in settle-Rests out.0 out.1

    -- A risk submission leaves neither spinner turning, whatever its guards, the wallet, the vault and
    -- the services do.
    pub handle_risk_submit-Rests :
        (conn : RiskConnection W) (page : RiskPage W)
        → Rests page.store
        → Rests (handle_risk_submit services fits now conn page).store
    unfolding handle_risk_submit
    handle_risk_submit-Rests conn page h = after_guard-Rests (risk_guard conn page.store) page h

  module _ (services : RiskServices W) (fits : List HistoryEntry → Bool) (wallet : RiskWallet W)
      (state : InferenceState) (now : ℕ) where
    -- Each node's permit is what `createSharing` made for that node, one after the other.
    pub data Permitted : List String → List NodePermit → W → W → Type 0 where
      nobody : (w : W) → Permitted [] [] w w
      shared :
          (node permit : String) (nodes : List String) (rest : List NodePermit) (w v w' : W)
          → services.create_sharing (sharing_request services fits wallet state now node) w
            ≡ (ok permit, v)
          → Permitted nodes rest v w'
          → Permitted (node ∷ nodes) (record { node = node; permit = permit } ∷ rest) w w'

    -- The quorum of the service, and a permit for each of its nodes, the leader first.
    pub record Asked (preview : QuorumPreview) (permits : List NodePermit) (start end : W)
        : Type 0 where
      pub seen : W
      pub previewed :
          services.quorum_preview (binding_of state.model_id).model_id start ≡ (ok preview, seen)
      pub permitted : Permitted (preview.leader ∷ preview.verifiers) permits seen end

    -- What a submission that went through is made of.
    pub record Submitted (start page : RiskPage W) : Type 0 where
      pub items : List EncryptedItemInput
      pub tx : String
      pub stored : StoredVaultInputs
      pub preview : QuorumPreview
      pub permits : List NodePermit
      pub request_id : String
      pub kept : W
      pub before : W
      pub in_vault : Stored services fits wallet state now items tx stored start.world kept
      pub asked : Asked preview permits kept before
      pub submitted :
          services.submit
            (risk_submission services fits wallet state now items tx stored preview permits)
            before
          ≡ (ok request_id, page.world)
      pub shown : page.store.request_id ≡ some request_id
      pub opened : page.location ≡ "/inference/" <+> request_id
