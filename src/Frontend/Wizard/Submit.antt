-- ===== src/Frontend/Wizard/Submit.antt =====
-- `handleSubmit`, `uploadToICL` and `withTimeout` of TextInferenceWizard.tsx.
use blindference.Prelude.{
  ℕ, String, Bool, not, ◌&&◌, if◌then◌else◌, List, [], ◌∷◌, ◌++◌, Option, none, some, Result, ok,
  err, or_default, truthy, text_truthy, text_length, ◌<+>◌,
}
use blindference.Bytes.{Buffer}
use blindference.Crypto.{Gcm, WebCrypto}
use blindference.Async.{Async, pure, lift, try_catch, throw_when, ◌>>=◌, ◌>>◌}
use blindference.Cofhe.{CofheClient}
use blindference.Sdk.Agent.Jobs.{hex_text}
use blindference.Frontend.PromptKey.{encrypt_prompt_key_for_text_request}
use blindference.Frontend.Page.Seal.{pack_payload}
use blindference.Frontend.Page.Flow.{trim}
use blindference.Frontend.Page.Submit.{Model, QuorumPreview, nodes_of}
use blindference.Frontend.Wizard.{
  SubmissionStage, WizardTurn, WizardSubmission, WizardServices, Wizard, WizardWallet, WizardDraws,
  WizardSealed, encrypt_text, no_nodes, request_id_of,
}

-- A promise that is overdue is left, and the message thrown; it goes on all the same, and what it does
-- is done before the caller goes on.
unfoldable pub with_timeout :
    {W A : Type 0} → (ℕ → W → W → Bool) → Async W A → ℕ → String → Async W A
with_timeout overdue promise timeout_ms message w =
    let (r, w') = promise w in (if overdue timeout_ms w w' then err message else r, w')

abbrev upload_late : String
upload_late =
    "Encrypted prompt upload timed out. Check the ICL and Pinata connectivity, then try again."

abbrev pub encryption_late : String
encryption_late =
    "CoFHE encryption timed out after 120s. This may happen if the ZK proof generation is slow. Please try again."

module _ {W : Type 0} where
  abbrev pub call : {A : Type 0} → Async W A → Async (Wizard W) A
  call m page = let (r, w) = m page.world in (r, record page { world = w })

  abbrev pub set_page : (Wizard W → Wizard W) → Async (Wizard W) (Unit {0})
  set_page f page = (ok tt, f page)

  abbrev pub set_step : Option String → Async (Wizard W) (Unit {0})
  set_step step = set_page (λ page. record page { encrypt_step = step })

  abbrev pub set_stage : SubmissionStage → Async (Wizard W) (Unit {0})
  set_stage stage = set_page (λ page. record page { stage = stage })

  module _ (services : WizardServices W) (timeout_ms : ℕ) where
    unfoldable pub upload_to_icl : Buffer → Async W String
    unfolding with_timeout throw_when ◌>>◌
    upload_to_icl packed = do
      reply ←
          with_timeout services.overdue (services.upload_prompt_blob packed) timeout_ms upload_late
      throw_when (not (truthy reply.cid)) ("Unexpected ICL upload response: " <+> reply.text)
      pure (or_default reply.cid "")

    module _ (fits : List WizardTurn → Bool) (wallet : WizardWallet) (model : Model)
        (history : List WizardTurn) where
      unfoldable pub submission_of : WizardSealed → String → String → WizardSubmission
      submission_of s prompt cid = record {
        user_address = wallet.address;
        prompt_cid = cid;
        model_id = model.id;
        encrypted_prompt_key_high = s.keys.0;
        encrypted_prompt_key_low = s.keys.1;
        task_id = s.task_id;
        cofhe_prompt_key_inputs = s.key_inputs;
        prompt_length = text_length prompt;
        provider = model.provider;
        model = model.model;
        prompt_key_store_tx = s.store_tx;
        prompt_key_store_address = wallet.store_address;
        conversation_history = history;
      }

      -- `setMessageHistory`, the write to the local storage, whose failure is ignored, and `navigate`.
      unfoldable pub keep_turn : String → String → Wizard W → Wizard W
      keep_turn prompt request_id page =
          let next = history ++ record { role = "user"; content = prompt } ∷ [] in
          record page {
            message_history = next;
            stored_history = if fits next then some next else page.stored_history;
            location = "/inference/" <+> request_id;
          }

      -- From the upload's answer on.
      unfoldable pub submit_uploaded :
          Option QuorumPreview → WizardSealed → String → String → Async (Wizard W) (Unit {0})
      unfolding submission_of keep_turn request_id_of throw_when ◌>>◌
      submit_uploaded none s prompt cid =
          set_page (λ page. record page { error = some no_nodes; stage = SubmissionStage.idle })
      submit_uploaded (some preview) s prompt cid = do
        set_stage SubmissionStage.submitting
        reply ← call (services.submit_job (submission_of s prompt cid))
        throw_when (not (truthy (request_id_of reply)))
            "The ICL response did not include a request identifier."
        set_page (keep_turn prompt (or_default (request_id_of reply) ""))

      module _ (g : Gcm) (web : WebCrypto g) (random_bytes : ℕ → Buffer)
          (stringify : List WizardTurn → String → g.Text) (draws : WizardDraws)
          (client : CofheClient W) where
        -- The prompt is sealed, and its key stored on the chain; a preview that fails leaves the
        -- key with the user alone.
        unfoldable pub seal_and_store : String → Async (Wizard W) WizardSealed
        unfolding encrypt_text with_timeout ◌>>◌
        seal_and_store prompt = do
          set_step (some "AES-256-GCM encrypting prompt...")
          sealed ← lift (encrypt_text g web random_bytes (stringify history prompt) draws.key)
          set_step (some "CoFHE ZK proof generation (~10-30s)...")
          payload ← call (
              with_timeout services.overdue (encrypt_prompt_key_for_text_request client draws.key)
                120000 encryption_late)
          set_step (some "Storing encrypted key on-chain...")
          preview ←
              call (
                try_catch (services.quorum_preview model.id >>= λ p. pure (some p))
                  (λ e. pure none))
          store_tx ← call (
              services.store_prompt_key (record {
                task_id = "0x" <+> hex_text draws.task_bytes;
                high = payload.high_input;
                low = payload.low_input;
                allowed_nodes = nodes_of wallet.address preview;
                store_address = wallet.store_address;
              }))
          pure (record {
            task_id = "0x" <+> hex_text draws.task_bytes;
            packed = pack_payload sealed;
            keys = (payload.high, payload.low);
            key_inputs = (payload.high_input, payload.low_input);
            preview = preview;
            store_tx = store_tx;
          })

        -- The body of the `try`.
        unfoldable pub attempt : String → Async (Wizard W) (Unit {0})
        unfolding seal_and_store upload_to_icl submit_uploaded ◌>>◌
        attempt prompt = do
          set_page (λ page. record page { error = none; stage = SubmissionStage.encrypting })
          s ← seal_and_store prompt
          set_step none
          set_stage SubmissionStage.uploading
          cid ← call (upload_to_icl s.packed)
          submit_uploaded s.preview s prompt cid

  -- The `catch` and the `finally`.
  unfoldable pub settle : Result (Unit {0}) → Wizard W → Wizard W
  settle (ok u) page = record page { encrypt_step = none; stage = SubmissionStage.idle }
  settle (err e) page = record page {
    error = some e;
    encrypt_step = none;
    stage = SubmissionStage.idle;
  }

-- The wallet and the environment, as the wizard finds them.
pub record WizardConnection (W : Type 0) : Type 0 where
  pub client : Option (CofheClient W)
  pub is_ready : Bool
  pub address : Option String
  pub has_clients : Bool
  pub store_address : Option String

pub data WizardGuard (W : Type 0) : Type 0 where
  refused : String → WizardGuard W
  passed : CofheClient W → WizardWallet → WizardGuard W

module _ {W : Type 0} where
  abbrev with_client : WizardConnection W → Option (CofheClient W) → WizardGuard W
  with_client conn none = WizardGuard.refused "CoFHE client not initialized."
  with_client conn (some client) =
      if not conn.has_clients
      then WizardGuard.refused "Wallet client is not available yet."
      else if not (truthy conn.store_address)
      then WizardGuard.refused "VITE_PROMPT_KEY_STORE_ADDRESS is not configured."
      else WizardGuard.passed client (record {
        address = or_default conn.address "";
        store_address = or_default conn.store_address "";
      })

  unfoldable pub wizard_guard : WizardConnection W → String → WizardGuard W
  wizard_guard conn prompt =
      if not (text_truthy prompt)
      then WizardGuard.refused "Please enter a prompt first."
      else if not (conn.is_ready && truthy conn.address)
      then WizardGuard.refused "Connect your wallet and wait for CoFHE to initialize."
      else with_client conn conn.client

  module _ (services : WizardServices W) (timeout_ms : ℕ) (fits : List WizardTurn → Bool)
      (model : Model) (g : Gcm) (web : WebCrypto g) (random_bytes : ℕ → Buffer)
      (stringify : List WizardTurn → String → g.Text) (draws : WizardDraws) where
    unfoldable pub after_guard : WizardGuard W → String → Wizard W → Wizard W
    unfolding attempt settle
    after_guard (WizardGuard.refused msg) prompt page = record page { error = some msg }
    after_guard (WizardGuard.passed client wallet) prompt page =
        let (r, page') =
          attempt services timeout_ms fits wallet model page.message_history g web random_bytes
            stringify draws client prompt page in
        settle r page'

    unfoldable pub handle_submit : WizardConnection W → Wizard W → Wizard W
    unfolding wizard_guard trim after_guard
    handle_submit conn page =
        after_guard (wizard_guard conn (trim page.prompt)) (trim page.prompt) page
