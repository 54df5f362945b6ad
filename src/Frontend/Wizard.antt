-- ===== src/Frontend/Wizard.antt =====
-- components/inference/TextInferenceWizard.tsx: the submission of a prompt. The services, the wallet,
-- the environment, the random draws, `JSON.stringify` and the passing of time are arguments. An error
-- is its message: the detail of an Axios error, or that of an `Error`; so the upload's `catch`, which
-- throws the same message, is left out.
pub mod Sealed
pub mod Kept
pub mod Submit
pub mod Sealing
pub mod Submitted
use blindference.Prelude.{
  ℕ, ◌+◌, ◌-◌, String, Bool, not, str_eq, ◌==◌, if◌then◌else◌, List, [], ◌∷◌, ◌++◌, Option, none,
  some, Result, ok, ◌>>=◌, ◌>>◌, throw_if, truthy, or_text, length, take, drop,
}
use blindference.Bytes.{Buffer}
use blindference.Crypto.{Gcm, WebCrypto}
use blindference.Async.{Async}
use blindference.Frontend.PromptKey.{SerializedEncryptedInput}
use blindference.Frontend.Page.Seal.{SealedText}
use blindference.Frontend.Page.Submit.{Model, QuorumPreview, StoreKeyArgs}

pub data ModelKey : Type 0 where
  qwen_7b groq_llama_70b gemini_flash : ModelKey

abbrev pub text_model : ModelKey → Model
text_model ModelKey.qwen_7b = record {
  id = "qwen2.5-7b";
  label = "Qwen2.5 7B (Local)";
  provider = "local";
  model = "qwen2.5-7b";
}
text_model ModelKey.groq_llama_70b = record {
  id = "groq:llama-3.3-70b-versatile";
  label = "Groq Llama 70B";
  provider = "groq";
  model = "llama-3.3-70b-versatile";
}
text_model ModelKey.gemini_flash = record {
  id = "gemini:gemini-2.5-flash";
  label = "Gemini 2.5 Flash";
  provider = "gemini";
  model = "gemini-2.5-flash";
}

-- Both branches of the test on the environment return the same key.
abbrev pub resolve_default_model_key : Option String → ModelKey
resolve_default_model_key configured =
    if str_eq (or_text configured "") (text_model ModelKey.gemini_flash).id
    then ModelKey.qwen_7b
    else ModelKey.qwen_7b

pub data SubmissionStage : Type 0 where
  idle encrypting uploading submitting : SubmissionStage

unfoldable pub button_label : SubmissionStage → Option String → String
button_label SubmissionStage.encrypting none = "Encrypting Prompt..."
button_label SubmissionStage.encrypting (some step) = step
button_label SubmissionStage.uploading step = "Uploading to ICL..."
button_label SubmissionStage.submitting step = "Assigning Quorum..."
button_label SubmissionStage.idle step = "Run Confidential Text Inference"

-- The IV has 16 bytes.
unfoldable pub encrypt_text :
    (g : Gcm) → WebCrypto g → (ℕ → Buffer) → g.Text → Buffer → Result SealedText
encrypt_text g web random_bytes text key = do
  throw_if (not (length key == 32)) "Key must be 32 bytes"
  let iv = random_bytes 16
  encrypted ← web.web_encrypt key iv (g.encode text)
  ok (record {
    iv = iv;
    auth_tag = drop (length encrypted - 16) encrypted;
    ciphertext = take (length encrypted - 16) encrypted;
  })

pub record WizardTurn : Type 0 where
  pub role : String
  pub content : String

-- The body of `POST /v1/jobs/submit`, less its constants.
pub record WizardSubmission : Type 0 where
  pub user_address : String
  pub prompt_cid : String
  pub model_id : String
  pub encrypted_prompt_key_high : String
  pub encrypted_prompt_key_low : String
  pub task_id : String
  pub cofhe_prompt_key_inputs : SerializedEncryptedInput × SerializedEncryptedInput
  pub prompt_length : ℕ
  pub provider : String
  pub model : String
  pub prompt_key_store_tx : String
  pub prompt_key_store_address : String
  pub conversation_history : List WizardTurn

-- The fields of the two answers that are read; `text` is the JSON text of the whole.
pub record UploadReply : Type 0 where
  pub cid : Option String
  pub text : String

pub record JobReply : Type 0 where
  pub job_id : Option String
  pub request_id : Option String

pub record WizardServices (W : Type 0) : Type 0 where
  pub quorum_preview : String → Async W QuorumPreview
  pub store_prompt_key : StoreKeyArgs → Async W String
  pub upload_prompt_blob : Buffer → Async W UploadReply
  pub submit_job : WizardSubmission → Async W JobReply
  -- Whether more than so many milliseconds passed between two states.
  pub overdue : ℕ → W → W → Bool

pub record Wizard (W : Type 0) : Type 0 where
  pub world : W
  pub prompt : String
  pub error : Option String
  pub stage : SubmissionStage
  pub encrypt_step : Option String
  pub message_history : List WizardTurn
  -- `blindference_wizard_history` of the local storage
  pub stored_history : Option (List WizardTurn)
  pub location : String

-- What a submission needs of the wallet and the environment.
pub record WizardWallet : Type 0 where
  pub address : String
  pub store_address : String

-- The random draws of one submission.
pub record WizardDraws : Type 0 where
  pub key : Buffer
  pub task_bytes : Buffer

-- What is sealed and stored before the upload.
pub record WizardSealed : Type 0 where
  pub task_id : String
  pub packed : Buffer
  pub keys : String × String
  pub key_inputs : SerializedEncryptedInput × SerializedEncryptedInput
  pub preview : Option QuorumPreview
  pub store_tx : String

abbrev pub no_nodes : String
no_nodes =
    "Encrypted key stored on-chain successfully, but no inference nodes are available. Start at least 3 blindference-node instances (1 leader + 2 verifiers) to form a quorum."

-- `job_id`, or `request_id` where that is missing or empty.
unfoldable pub request_id_of : JobReply → Option String
request_id_of reply = if truthy reply.job_id then reply.job_id else reply.request_id
