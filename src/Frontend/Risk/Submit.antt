-- ===== src/Frontend/Risk/Submit.antt =====
-- `handleRiskSubmit` of pages/InferenceNewPage.tsx. The wallet, the chain, the vault's reads, the
-- services and the clock are arguments; the permits of the quorum are made one after the other. An
-- error is its message: the detail of an Axios error, or that of an `Error`.
use blindference.Prelude.{
  ℕ, ◌+◌, ◌*◌, ◌/◌, String, Bool, true, false, not, ◌&&◌, ◌||◌, ltb, str_eq, if◌then◌else◌, List,
  [], ◌∷◌, Option, none, some, Result, ok, err, truthy, or_default, decimal, ◌<+>◌, to_lower_case,
}
use blindference.Async.{Async, pure, throw_when, ◌>>=◌, ◌>>◌}
use blindference.Cofhe.{CofheClient, EncryptedItemInput}
use blindference.Frontend.Chain.{Chain}
use blindference.Frontend.Vault.{
  RiskFeatures, StoredVaultInputs, encrypt_risk_features, store_encrypted_risk_inputs_in_vault,
  read_stored_risk_input_handles,
}
use blindference.Frontend.History.{HistoryEntry, HistoryStatus, EntryMode, Slot, add_history_entry}
use blindference.Frontend.Page.Submit.{QuorumPreview}
use blindference.Frontend.Risk.Store.{RiskModel, InferenceState, Action, act}

-- The entry of `MODEL_BINDINGS`, less the figures that are only shown.
pub record Binding : Type 0 where
  pub model_id : String
  pub provider : String
  pub model : String
  pub base_fee : ℕ

abbrev pub binding_of : RiskModel → Binding
binding_of RiskModel.llama3_70b = record {
  model_id = "groq:llama-3.3-70b-versatile";
  provider = "groq";
  model = "llama-3.3-70b-versatile";
  base_fee = 10;
}
binding_of RiskModel.gemini_pro = record {
  model_id = "gemini:gemini-2.5-flash";
  provider = "gemini";
  model = "gemini-2.5-flash";
  base_fee = 8;
}
binding_of RiskModel.opt_125m = record {
  model_id = "facebook/opt-125m";
  provider = "local";
  model = "facebook/opt-125m";
  base_fee = 2;
}

abbrev pub total_fee : InferenceState → ℕ
total_fee s = (binding_of s.model_id).base_fee + (if s.coverage_enabled then 2 else 0)

pub record VaultInput : Type 0 where
  pub ct_hash : String
  pub utype : ℕ
  pub signature : String

pub record NodePermit : Type 0 where
  pub node : String
  pub permit : String

-- `permits.createSharing`, exported.
pub record SharingRequest : Type 0 where
  pub issuer : String
  pub recipient : String
  pub name : String
  pub expiration : ℕ

-- The body of `POST /v1/inference/requests`, less its constants.
pub record RiskSubmission : Type 0 where
  pub model_id : String
  pub encrypted_input : List VaultInput
  pub permits : List NodePermit
  pub leader_address : String
  pub verifier_addresses : List String
  pub loan_id : String
  pub coverage_type : Option String
  pub max_fee_gnk : ℕ
  pub developer_address : String
  pub coverage_requested : Bool
  pub input_vault_address : String
  pub input_vault_tx : String
  pub input_vault_owner : String
  pub input_vault_stored_at : String
  pub provider : String
  pub model : String

pub record RiskServices (W : Type 0) : Type 0 where
  pub chain : Chain W
  pub stored_input_handles : String → String → Async W (String × ℕ × ℕ × ℕ × ℕ × ℕ)
  pub quorum_preview : String → Async W QuorumPreview
  pub create_sharing : SharingRequest → Async W String
  pub submit : RiskSubmission → Async W String

pub record RiskPage (W : Type 0) : Type 0 where
  pub world : W
  pub store : InferenceState
  pub history : Slot
  pub location : String

-- The wallet and the environment, once the guards have let pass; `account` is the wallet client's.
pub record RiskWallet (W : Type 0) : Type 0 where
  pub client : CofheClient W
  pub address : String
  pub account : Option String
  pub vault : String

-- The items with the vault's handles in place of their own; the vault is only read behind a store of
-- four items, so that no handle is missing.
unfoldable pub vault_backed : List EncryptedItemInput → List ℕ → List VaultInput
vault_backed (item ∷ items) (handle ∷ handles) =
    record { ct_hash = decimal handle; utype = item.utype; signature = item.signature }
    ∷ vault_backed items handles
vault_backed _ _ = []

abbrev pub handle_list : ℕ × ℕ × ℕ × ℕ → List ℕ
handle_list (a, b, c, d) = a ∷ b ∷ c ∷ d ∷ []

abbrev pub features_of : InferenceState → RiskFeatures
features_of s = record {
  credit_score = s.credit_score;
  loan_amount = s.loan_amount;
  account_age = s.account_age;
  prev_defaults = s.prev_defaults;
}

abbrev figures : InferenceState → String
figures s =
    decimal s.credit_score
    <+> "/"
    <+> decimal s.loan_amount
    <+> "/"
    <+> decimal s.account_age
    <+> "/"
    <+> decimal s.prev_defaults

unfoldable pub history_entry_of : InferenceState → String → String → ℕ → HistoryEntry
history_entry_of s loan_id request_id now = record {
  id = loan_id;
  title = "Risk: " <+> figures s;
  prompt =
      "Risk scoring: credit="
      <+> decimal s.credit_score
      <+> ", loan="
      <+> decimal s.loan_amount
      <+> ", age="
      <+> decimal s.account_age
      <+> ", defaults="
      <+> decimal s.prev_defaults;
  mode = EntryMode.risk;
  model = (binding_of s.model_id).model_id;
  status = HistoryStatus.processing;
  request_id = some request_id;
  output_cid = none;
  encrypted_output_key_high = none;
  encrypted_output_key_low = none;
  decrypted_content = none;
  error_msg = none;
  timestamp = now;
}

module _ {W : Type 0} where
  abbrev pub call : {A : Type 0} → Async W A → Async (RiskPage W) A
  call m page = let (r, w) = m page.world in (r, record page { world = w })

  unfoldable pub do_action : Action → RiskPage W → RiskPage W
  do_action action page = record page { store = act action page.store }

  unfoldable pub dispatch : Action → Async (RiskPage W) (Unit {0})
  unfolding act do_action
  dispatch action page = (ok tt, do_action action page)

  -- `now` is the time in milliseconds, of every call of `Date.now`; the state that the handler reads
  -- is the one of its render.
  module _ (services : RiskServices W) (fits : List HistoryEntry → Bool) (wallet : RiskWallet W)
      (state : InferenceState) (now : ℕ) where
    abbrev pub loan_id : String
    loan_id = "loan_" <+> decimal now

    -- What a node's permit is made from: it lasts 30 days.
    abbrev pub sharing_request : String → SharingRequest
    sharing_request node = record {
      issuer = wallet.address;
      recipient = node;
      name =
          "Blindference "
          <+> (binding_of state.model_id).model_id
          <+> " "
          <+> decimal now
          <+> " -> "
          <+> node;
      expiration = now / 1000 + 30 * 24 * 3600;
    }

    -- One sharing permit for each node, in the order of the quorum.
    unfoldable pub permits_for : List String → Async W (List NodePermit)
    permits_for [] = pure []
    permits_for (node ∷ nodes) = do
      permit ← services.create_sharing (sharing_request node)
      rest ← permits_for nodes
      pure (record { node = node; permit = permit } ∷ rest)

    unfoldable pub risk_submission :
        List EncryptedItemInput
        → String
        → StoredVaultInputs
        → QuorumPreview
        → List NodePermit
        → RiskSubmission
    unfolding vault_backed
    risk_submission items tx stored preview permits = record {
      model_id = (binding_of state.model_id).model_id;
      encrypted_input = vault_backed items (handle_list stored.handles);
      permits = permits;
      leader_address = preview.leader;
      verifier_addresses = preview.verifiers;
      loan_id = loan_id;
      coverage_type = if state.coverage_enabled then some "HALLUCINATION" else none;
      max_fee_gnk = total_fee state;
      developer_address = wallet.address;
      coverage_requested = state.coverage_enabled;
      input_vault_address = wallet.vault;
      input_vault_tx = tx;
      input_vault_owner = stored.owner;
      input_vault_stored_at = decimal stored.stored_at;
      provider = (binding_of state.model_id).provider;
      model = (binding_of state.model_id).model;
    }

    -- The features are encrypted, stored in the vault and read back; the owner must be the wallet.
    unfoldable pub store_features : Async W (List EncryptedItemInput × String × StoredVaultInputs)
    unfolding encrypt_risk_features store_encrypted_risk_inputs_in_vault
        read_stored_risk_input_handles throw_when to_lower_case ◌>>◌
    store_features = do
      items ← encrypt_risk_features wallet.client (features_of state)
      tx ←
          store_encrypted_risk_inputs_in_vault services.chain wallet.account items loan_id
            wallet.vault
      stored ← read_stored_risk_input_handles services.stored_input_handles loan_id wallet.vault
      throw_when (not (str_eq (to_lower_case stored.owner) (to_lower_case wallet.address)))
          "BlindferenceInputVault stored handles for a different owner than the connected wallet."
      pure (items, tx, stored)

    unfoldable pub ask_quorum : Async W (QuorumPreview × List NodePermit)
    unfolding permits_for
    ask_quorum = do
      preview ← services.quorum_preview (binding_of state.model_id).model_id
      permits ← permits_for (preview.leader ∷ preview.verifiers)
      pure (preview, permits)

    -- `addHistoryEntry`, `setRequestId` and `navigate`.
    unfoldable pub show_request : String → Async (RiskPage W) (Unit {0})
    unfolding history_entry_of add_history_entry act
    show_request request_id page = (
      ok tt,
      record page {
        history =
            add_history_entry fits (history_entry_of state loan_id request_id now) page.history;
        store = act (Action.set_request_id (some request_id)) page.store;
        location = "/inference/" <+> request_id;
      },
    )

    -- From the quorum's permits on.
    unfoldable pub deliver : RiskSubmission → Async (RiskPage W) (Unit {0})
    unfolding show_request dispatch ◌>>◌
    deliver submission = do
      dispatch (Action.set_is_encrypting false)
      dispatch (Action.set_is_submitting true)
      request_id ← call (services.submit submission)
      show_request request_id

    -- The body of the `try`.
    unfoldable pub attempt : Async (RiskPage W) (Unit {0})
    unfolding store_features ask_quorum risk_submission deliver dispatch ◌>>◌
    attempt = do
      dispatch (Action.set_error none)
      dispatch (Action.set_is_encrypting true)
      (items, tx, stored) ← call store_features
      (preview, permits) ← call ask_quorum
      deliver (risk_submission items tx stored preview permits)

  -- The `catch` and the `finally`.
  unfoldable pub settle : Result (Unit {0}) → RiskPage W → RiskPage W
  unfolding act do_action
  settle (ok u) page =
      do_action (Action.set_is_encrypting false) (do_action (Action.set_is_submitting false) page)
  settle (err e) page =
      do_action (Action.set_is_encrypting false)
        (do_action (Action.set_is_submitting false) (do_action (Action.set_error (some e)) page))

-- The wallet and the environment, as the page finds them.
pub record RiskConnection (W : Type 0) : Type 0 where
  pub cofhe_client : Option (CofheClient W)
  pub is_ready : Bool
  pub address : Option String
  pub has_clients : Bool
  pub account : Option String
  pub vault : Option String

pub data RiskGuard (W : Type 0) : Type 0 where
  refused : String → RiskGuard W
  passed : RiskWallet W → RiskGuard W

module _ {W : Type 0} where
  abbrev connected : RiskConnection W → Option (CofheClient W) → RiskGuard W
  connected conn none = RiskGuard.refused "Connect your wallet and wait for CoFHE to initialize."
  connected conn (some client) =
      if not (conn.is_ready && truthy conn.address)
      then RiskGuard.refused "Connect your wallet and wait for CoFHE to initialize."
      else if not conn.has_clients
      then RiskGuard.refused "Wallet client is not available yet."
      else if not (truthy conn.vault)
      then RiskGuard.refused "VITE_BLINDFERENCE_INPUT_VAULT_ADDRESS is not configured."
      else RiskGuard.passed (record {
        client = client;
        address = or_default conn.address "";
        account = conn.account;
        vault = or_default conn.vault "";
      })

  unfoldable pub risk_guard : RiskConnection W → InferenceState → RiskGuard W
  risk_guard conn state =
      if ltb state.credit_score 300 || ltb 850 state.credit_score
      then RiskGuard.refused "Invalid credit score. Must be between 300 and 850."
      else connected conn conn.cofhe_client

  module _ (services : RiskServices W) (fits : List HistoryEntry → Bool) (now : ℕ) where
    unfoldable pub after_guard : RiskGuard W → RiskPage W → RiskPage W
    unfolding attempt settle act do_action
    after_guard (RiskGuard.refused msg) page = do_action (Action.set_error (some msg)) page
    after_guard (RiskGuard.passed wallet) page =
        let (r, page') = attempt services fits wallet page.store now page in settle r page'

    unfoldable pub handle_risk_submit : RiskConnection W → RiskPage W → RiskPage W
    unfolding risk_guard after_guard
    handle_risk_submit conn page = after_guard (risk_guard conn page.store) page
