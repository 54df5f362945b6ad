-- ===== src/Frontend/Page/Submit.antt =====
-- `handleChatSubmit` of InferenceNewPage.tsx. The services, the wallet, the environment and the random
-- draws are arguments; `JSON.stringify` of the conversation and the prompt is one too. An error is its
-- message: the detail of an Axios error, or that of an `Error`.
use blindference.Prelude.{
  ℕ, String, Bool, true, false, not, ◌&&◌, ◌||◌, str_eq, if◌then◌else◌, List, [], ◌∷◌, map,
  filter_by, Option, none, some, ok,
}
use blindference.Bytes.{Buffer}
use blindference.Async.{Async}
use blindference.Frontend.PromptKey.{SerializedEncryptedInput}
use blindference.Frontend.History.{HistoryStatus}
use blindference.Frontend.Chat.{Role, ChatEntry, Chat, is_assistant}
use blindference.Frontend.Chat.Effects.{Browser}
use blindference.Frontend.Chat.Actions.{fail_assistant_message}
use blindference.Frontend.Page.Steps.{ChatStage}

pub data PaymentMode : Type 0 where
  escrow credits : PaymentMode

pub record Model : Type 0 where
  pub id : String
  pub label : String
  pub provider : String
  pub model : String

pub record QuorumPreview : Type 0 where
  pub leader : String
  pub verifiers : List String

pub record StoreKeyArgs : Type 0 where
  pub task_id : String
  pub high : SerializedEncryptedInput
  pub low : SerializedEncryptedInput
  pub allowed_nodes : List String
  pub store_address : String

-- One turn of the conversation that goes along.
abbrev pub Turn : Type 0
Turn = Role × String

-- The body of `POST /v1/jobs/submit`, without the constants that no answer depends on.
pub record ChatSubmission : Type 0 where
  pub user_address : String
  pub prompt_cid : String
  pub model_id : String
  pub encrypted_prompt_key_high : String
  pub encrypted_prompt_key_low : String
  pub payment_mode : PaymentMode
  pub payment_currency : String
  pub insurance_opt_in : Bool
  pub escrow_id : Option String
  pub task_id : String
  pub prompt_length : ℕ
  pub provider : String
  pub model : String
  pub cofhe_prompt_key_inputs : SerializedEncryptedInput × SerializedEncryptedInput
  pub prompt_key_store_tx : String
  pub prompt_key_store_address : String
  pub conversation_history : List Turn

-- What the page calls; the upload with its time limit, `storePromptKeyForTextRequest`, `createEscrow` and the APIs.
pub record PageServices (W : Type 0) : Type 0 where
  pub quorum_preview : String → Async W QuorumPreview
  pub store_prompt_key : StoreKeyArgs → Async W String
  pub upload_prompt : Buffer → Async W String
  pub create_escrow : ℕ → String → Async W (Option String)
  pub submit_job : ChatSubmission → Async W (Option String)

pub record Page (W : Type 0) : Type 0 where
  pub world : W
  pub chat : Chat
  pub prompt : String
  pub error : Option String
  pub stage : ChatStage

-- What the user has chosen, and the wallet.
pub record Choice : Type 0 where
  pub model : Model
  pub payment_mode : PaymentMode
  pub payment_currency : String
  pub insurance_opt_in : Bool
  pub address : String
  pub store_address : String

-- The random draws of one submission.
pub record Draws : Type 0 where
  pub user_id : String
  pub assistant_id : String
  pub now : ℕ
  pub key : Buffer
  pub task_bytes : Buffer

module _ {W : Type 0} where
  abbrev pub call : {A : Type 0} → Async W A → Async (Page W) A
  call m page = let (r, w) = m page.world in (r, record page { world = w })

  abbrev pub set_page : (Page W → Page W) → Async (Page W) (Unit {0})
  set_page f page = (ok tt, f page)

  abbrev pub set_stage : ChatStage → Page W → Page W
  set_stage stage page = record page { stage = stage }

  abbrev pub set_chat : (Chat → Chat) → Page W → Page W
  set_chat f page = record page { chat = f page.chat }

  -- `setError(msg); failAssistantMessage(id, msg)`
  abbrev pub fail_page : Browser → String → String → Page W → Page W
  fail_page b id msg page = record page {
    error = some msg;
    chat = fail_assistant_message b id msg page.chat;
  }

abbrev is_done : Option HistoryStatus → Bool
is_done (some HistoryStatus.done) = true
is_done _ = false

-- The turns before: what the user asked, and the answers that are done.
unfoldable pub conversation_of : List ChatEntry → List Turn
conversation_of messages =
    map (λ m. (m.role, m.content))
      (filter_by (λ m. not (is_assistant m.role) || (is_assistant m.role && is_done m.status))
        messages)

abbrev pub job_price_cusdc : Model → ℕ
job_price_cusdc m =
    if str_eq m.id "groq:llama-3.3-70b-versatile"
    then 5000
    else if str_eq m.id "gemini:gemini-2.5-flash"
    then 3000
    else 1000

abbrev pub no_nodes : String
no_nodes =
    "Encrypted key stored on-chain successfully, but no inference nodes are available. Start at least 3 blindference-node instances (1 leader + 2 verifiers) and ensure they register with the ICL via /admin/bootstrap-demo-nodes or real attestation to form a quorum."

abbrev pub nodes_gone : String
nodes_gone =
    "Inference nodes became unavailable while creating the escrow. Please re-bootstrap nodes (curl /admin/bootstrap-demo-nodes) and try again."

abbrev pub nodes_of : String → Option QuorumPreview → List String
nodes_of address none = address ∷ []
nodes_of address (some preview) = preview.leader ∷ preview.verifiers
