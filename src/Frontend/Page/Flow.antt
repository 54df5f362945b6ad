-- ===== src/Frontend/Page/Flow.antt =====
-- The steps of `handleChatSubmit`, in the order of InferenceNewPage.tsx.
use Prim.Native.Char.{Char, code}
use blindference.Prelude.{
  ℕ, String, Bool, true, false, not, ◌&&◌, ◌||◌, ◌==◌, leb, str_eq, if◌then◌else◌, List, [], ◌∷◌,
  Option, none, some, Result, ok, err, or_default, or_text, truthy, text_truthy, text_length, join,
  ◌<+>◌,
}
use blindference.Bytes.{Buffer}
use blindference.Crypto.{Gcm, WebCrypto}
use blindference.Async.{Async, pure, lift, try_catch, throw_when, ◌>>=◌, ◌>>◌}
use blindference.Cofhe.{CofheClient}
use blindference.Sdk.Agent.Jobs.{hex_text}
use blindference.Frontend.PromptKey.{EncryptedPromptKeyPayload, encrypt_prompt_key_for_text_request}
use blindference.Frontend.History.{HistoryStatus}
use blindference.Frontend.Chat.{ChatEntry, ChatMetadata}
use blindference.Frontend.Chat.Effects.{Browser}
use blindference.Frontend.Chat.Actions.{
  push_user_message, update_assistant_status, update_assistant_metadata,
}
use blindference.Frontend.Page.Seal.{encrypt_text, pack_payload}
use blindference.Frontend.Page.Steps.{ChatStage}
use blindference.Frontend.Page.Submit.{
  PaymentMode, QuorumPreview, Turn, ChatSubmission, PageServices, Page, Choice, Draws, call,
  set_page, set_stage, set_chat, fail_page, conversation_of, job_price_cusdc, no_nodes, nodes_gone,
  nodes_of,
}

-- The white space and the line ends that `trim` takes off.
abbrev is_space : Char → Bool
is_space c =
    let n = code c in
    (leb 9 n && leb n 13)
    || (n == 32
        || (n == 160
            || (n == 5760
                || ((leb 8192 n && leb n 8202)
                    || (n == 8232
                        || (n == 8233
                            || (n == 8239 || (n == 8287 || (n == 12288 || n == 65279)))))))))

unfoldable pub trim_start : String → String
trim_start String.[] = ""
trim_start (String.◌∷◌ c s) = let rest = trim_start s in if is_space c then rest else String.◌∷◌ c s

unfoldable pub trim_end : String → String
trim_end String.[] = ""
trim_end (String.◌∷◌ c s) =
    let rest = trim_end s in if is_space c && str_eq rest "" then "" else String.◌∷◌ c rest

-- `prompt.trim()`
unfoldable pub trim : String → String
unfolding trim_start trim_end
trim s = trim_end (trim_start s)

-- The wallet and the environment, as the page finds them.
pub record Connection (W : Type 0) : Type 0 where
  pub cofhe_client : Option (CofheClient W)
  pub is_ready : Bool
  pub address : Option String
  pub has_clients : Bool
  pub store_address : Option String

-- What is sealed and stored before the prompt is uploaded.
pub record Stored : Type 0 where
  pub task_id : String
  pub prompt : String
  pub conversation : List Turn
  pub packed : Buffer
  pub payload : EncryptedPromptKeyPayload
  pub store_tx : String

abbrev pub settle_attempt : {W : Type 0} → Browser → String → Result (Unit {0}) → Page W → Page W
settle_attempt b id (ok done) page = set_stage ChatStage.idle page
settle_attempt b id (err e) page = set_stage ChatStage.idle (fail_page b id e page)

module _ {W : Type 0} (services : PageServices W) (b : Browser) (choice : Choice) (draws : Draws)
    (escrow_error : Option String) where
  abbrev set_status : HistoryStatus → Option String → Async (Page W) (Unit {0})
  set_status status request_id =
      set_page (set_chat (update_assistant_status b draws.assistant_id status request_id))

  abbrev set_metadata : ChatMetadata → Async (Page W) (Unit {0})
  set_metadata patch = set_page (set_chat (update_assistant_metadata draws.assistant_id patch))

  -- `setError(msg); failAssistantMessage(…); setChatStage('idle'); return`
  abbrev give_up : String → Async (Page W) (Unit {0})
  give_up msg =
      set_page (λ page. set_stage ChatStage.idle (fail_page b draws.assistant_id msg page))

  abbrev seen : Async W QuorumPreview
  seen = services.quorum_preview choice.model.id

  unfoldable pub submission_of : Stored → String → Option String → ChatSubmission
  submission_of s cid escrow_id = record {
    user_address = choice.address;
    prompt_cid = cid;
    model_id = choice.model.id;
    encrypted_prompt_key_high = s.payload.high;
    encrypted_prompt_key_low = s.payload.low;
    payment_mode = choice.payment_mode;
    payment_currency = choice.payment_currency;
    insurance_opt_in = choice.insurance_opt_in;
    escrow_id = escrow_id;
    task_id = s.task_id;
    prompt_length = text_length s.prompt;
    provider = choice.model.provider;
    model = choice.model.model;
    cofhe_prompt_key_inputs = (s.payload.high_input, s.payload.low_input);
    prompt_key_store_tx = s.store_tx;
    prompt_key_store_address = choice.store_address;
    conversation_history = s.conversation;
  }

  unfoldable pub submit_stored :
      QuorumPreview → Stored → String → Option String → Async (Page W) (Unit {0})
  unfolding submission_of throw_when ◌>>◌
  submit_stored preview s cid escrow_id = do
    set_page (set_stage ChatStage.submitting)
    job_id ← call (services.submit_job (submission_of s cid escrow_id))
    throw_when (not (truthy job_id))
        "The Payment Service response did not include a job identifier."
    let id = or_default job_id ""
    set_metadata (
        ("requestIdDisplay", id)
        ∷ ("leader", preview.leader)
        ∷ ("verifiers", join ", " preview.verifiers)
        ∷ [])
    set_status HistoryStatus.processing (some id)
    set_page (set_chat (λ chat. record chat { active_request_id = id }))

  -- After the escrow, the nodes are looked for once more.
  abbrev after_escrow : QuorumPreview → Stored → String → Option String → Async (Page W) (Unit {0})
  after_escrow preview s cid none = give_up (
      or_text escrow_error
        "Escrow creation failed. Please ensure you have enough USDC and try again.")
  after_escrow preview s cid (some escrow_id) = do
    there ← call (try_catch (seen >>= λ p. pure true) (λ e. pure false))
    if there then submit_stored preview s cid (some escrow_id) else give_up nodes_gone

  abbrev pay : PaymentMode → QuorumPreview → Stored → String → Async (Page W) (Unit {0})
  pay PaymentMode.credits preview s cid = submit_stored preview s cid none
  pay PaymentMode.escrow preview s cid = do
    set_page (set_stage ChatStage.escrow)
    set_status HistoryStatus.escrow none
    escrow_id ← call (services.create_escrow (job_price_cusdc choice.model) s.task_id)
    after_escrow preview s cid escrow_id

  unfoldable pub upload_stored : Option QuorumPreview → Stored → Async (Page W) (Unit {0})
  unfolding submit_stored ◌>>◌
  upload_stored none s = give_up no_nodes
  upload_stored (some preview) s = do
    set_page (set_stage ChatStage.uploading)
    set_status HistoryStatus.processing none
    cid ← call (services.upload_prompt s.packed)
    set_metadata (("promptCID", cid) ∷ [])
    pay choice.payment_mode preview s cid

  module _ (g : Gcm) (web : WebCrypto g) (random_bytes : ℕ → Buffer)
      (stringify : List Turn → String → g.Text) (client : CofheClient W) where
    -- The body of the `try` up to the stored key; what follows is `upload`.
    unfoldable pub attempt_before :
        (Option QuorumPreview → Stored → Async (Page W) (Unit {0}))
        → String
        → List ChatEntry
        → Async (Page W) (Unit {0})
    unfolding conversation_of ◌>>◌
    attempt_before upload prompt messages = do
      set_page (set_stage ChatStage.encrypting)
      set_status HistoryStatus.encrypting none
      let conversation = conversation_of messages
      sealed ← lift (encrypt_text g web random_bytes (stringify conversation prompt) draws.key)
      payload ← call (encrypt_prompt_key_for_text_request client draws.key)
      let task_id = "0x" <+> hex_text draws.task_bytes
      set_metadata (("taskId", task_id) ∷ ("modelId", choice.model.id) ∷ [])
      preview ← call (try_catch (seen >>= λ p. pure (some p)) (λ e. pure none))
      store_tx ← call (
          services.store_prompt_key (record {
            task_id = task_id;
            high = payload.high_input;
            low = payload.low_input;
            allowed_nodes = nodes_of choice.address preview;
            store_address = choice.store_address;
          }))
      (if text_truthy store_tx then set_metadata (("storeKeyTx", store_tx) ∷ []) else pure tt)
      upload preview (record {
        task_id = task_id;
        prompt = prompt;
        conversation = conversation;
        packed = pack_payload sealed;
        payload = payload;
        store_tx = store_tx;
      })

    -- The body of the `try`; `messages` are those of the chat before the new ones.
    unfoldable pub attempt : String → List ChatEntry → Async (Page W) (Unit {0})
    unfolding upload_stored attempt_before
    attempt = attempt_before upload_stored

    -- From the new messages on: `try`, `catch` and `finally`.
    unfoldable pub run_submit : String → Page W → Page W
    unfolding attempt
    run_submit prompt page =
        let pushed =
          push_user_message b draws.user_id draws.assistant_id draws.now prompt choice.model.label
            page.chat in
        let (r, page') =
          attempt prompt page.chat.messages
            (record page { chat = pushed; prompt = ""; error = none }) in
        settle_attempt b draws.assistant_id r page'
