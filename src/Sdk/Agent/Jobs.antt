-- ===== src/Sdk/Agent/Jobs.antt =====
-- The inference of agent.ts: a prompt is sealed, its key stored on the chain, the job submitted and
-- polled, and its answer opened. Random draws are arguments.
use blindference.Prelude.{
  ℕ, zero, suc, ◌/◌, ◌%◌, String, Bool, true, false, not, ◌||◌, str_eq, if◌then◌else◌, List, [],
  ◌∷◌, ◌++◌, Option, none, some, ok, err, or_default, or_text, truthy, get_elem?, decimal, ◌<+>◌,
  to_lower_case, Result,
}
use blindference.Bytes.{Buffer}
use blindference.Crypto.{Gcm}
use blindference.Async.{Async, pure, throw, lift, throw_when, ◌>>=◌, ◌>>◌}
use blindference.Async.Poll.{poll_until}
use blindference.Cofhe.{CofheClient, EncryptedItemInput, uint128}
use blindference.Sdk.Encryption.{
  generate_aes_key, encrypt_aes_gcm, pack_aes_payload, split_key_for_cofhe,
}
use blindference.Sdk.Agent.{
  Agent, Services, Config, JobData, JobSubmission, SerializedInput, on, init_cofhe,
}
use blindference.Sdk.Agent.Keys.{store_prompt_key, decrypt_output_key, download_and_decrypt_output}

abbrev pub char_at : ℕ → String → String
char_at n String.[] = ""
char_at zero (String.◌∷◌ c s) = String.◌∷◌ c String.[]
char_at (suc n) (String.◌∷◌ c s) = char_at n s

-- `bytes.toString('hex')`
unfoldable pub hex_text : Buffer → String
hex_text [] = ""
hex_text (b ∷ bs) =
    char_at (b / 16) "0123456789abcdef" <+> char_at (b % 16) "0123456789abcdef" <+> hex_text bs

-- The first n of the draws.
unfoldable pub fill : (ℕ → ℕ) → ℕ → Buffer
fill draws zero = []
fill draws (suc i) = fill draws i ++ draws i ∷ []

-- The i-th draw stands for `Math.floor(Math.random() * 256)` in round i.
unfoldable pub generate_task_id : (ℕ → ℕ) → String
unfolding hex_text fill
generate_task_id draws = "0x" <+> hex_text (fill draws 32)

unfoldable pub serialize_encrypted_input : EncryptedItemInput → SerializedInput
serialize_encrypted_input input = record {
  ct_hash = decimal input.ct_hash;
  security_zone = input.security_zone;
  utype = input.utype;
  signature = input.signature;
}

pub record InferOptions (Text : Type 0) : Type 0 where
  pub prompt : Text
  pub prompt_length : ℕ
  pub model_id : Option String
  pub currency : Option String
  pub insurance : Option Bool

pub record InferenceResult (Text : Type 0) : Type 0 where
  pub job_id : String
  pub task_id : String
  pub status : String
  pub output : Option Text
  pub output_cid : Option String
  pub commitment_hash : Option String

-- What steps 1 to 6 leave for the submission.
pub record Prepared : Type 0 where
  pub task_id : String
  pub prompt_cid : String
  pub high_input : EncryptedItemInput
  pub low_input : EncryptedItemInput
  pub store_tx : String

abbrev pub is_completed : JobData → Bool
is_completed job = str_eq job.status "COMPLETED"

abbrev pub is_over : JobData → Bool
is_over job = is_completed job || (str_eq job.status "FAILED" || str_eq job.status "REFUNDED")

-- An item that the client did not give throws where it is read.
abbrev item_at : List EncryptedItemInput → ℕ → Result EncryptedItemInput
item_at items i = elim (get_elem? items i) [
  | none ↦ err "TypeError: Cannot read properties of undefined (reading 'ctHash')"
  | some item ↦ ok item
]

abbrev pub job_over : JobData → Option JobData
job_over job = if is_over job then some job else none

module _ {W : Type 0} (services : Services W) where
  -- One round of the poll: 3 seconds, then the job as the Payment Service has it.
  unfoldable pub poll_round : String → Async W JobData
  unfolding ◌>>◌
  poll_round job_id = do services.sleep 3000; services.get_job job_id

  -- A job that is over ends the poll. `{ status: 'FAILED', ...data }` is data, which has a status
  -- of its own.
  unfoldable pub poll_job_status : String → ℕ → Async W JobData
  unfolding poll_round poll_until
  poll_job_status job_id max_attempts =
      poll_until (poll_round job_id) job_over
        ("Polling timed out after " <+> decimal max_attempts <+> " attempts") max_attempts

  module _ (g : Gcm) (config : Config) (random_bytes : ℕ → Buffer) (draws : ℕ → ℕ) where
    -- Steps 1 to 6.
    unfoldable pub prepare : CofheClient W → InferOptions g.Text → Async W Prepared
    unfolding store_prompt_key
    prepare client options = do
      let task_id = generate_task_id draws
      let key = generate_aes_key random_bytes
      sealed ← lift (encrypt_aes_gcm g random_bytes options.prompt key)
      prompt_cid ←
          services.upload_prompt (pack_aes_payload sealed.iv sealed.auth_tag sealed.ciphertext)
      halves ← lift (split_key_for_cofhe key)
      items ← client.encrypt_inputs (uint128 halves.high ∷ uint128 halves.low ∷ [])
      store_tx ← store_prompt_key services config task_id (item_at items 0) (item_at items 1)
      high_input ← lift (item_at items 0)
      low_input ← lift (item_at items 1)
      pure (record {
        task_id = task_id;
        prompt_cid = prompt_cid;
        high_input = high_input;
        low_input = low_input;
        store_tx = store_tx;
      })

    abbrev pub model_of : InferOptions g.Text → String
    model_of options = or_text options.model_id "groq:llama-3.3-70b-versatile"

    unfoldable pub submission_of : InferOptions g.Text → Prepared → JobSubmission
    unfolding serialize_encrypted_input to_lower_case
    submission_of options p = record {
      user_address = services.address;
      prompt_cid = p.prompt_cid;
      model_id = model_of options;
      encrypted_prompt_key_high = decimal p.high_input.ct_hash;
      encrypted_prompt_key_low = decimal p.low_input.ct_hash;
      payment_mode = "credits";
      payment_currency = to_lower_case (or_text options.currency "cUSDC");
      insurance_opt_in = or_default options.insurance false;
      task_id = p.task_id;
      min_tier = 0;
      zdr_required = false;
      verifier_count = 2;
      permits = [];
      metadata = record {
        high = serialize_encrypted_input p.high_input;
        low = serialize_encrypted_input p.low_input;
        prompt_length = options.prompt_length;
        vertical = "blindference-text-demo";
        model = model_of options;
        is_agent_job = true;
        uavp_enabled = true;
        prompt_key_store_tx = p.store_tx;
        prompt_key_store_status = "stored_by_user";
        prompt_key_store_address = config.prompt_key_store_address;
        source = "sdk";
      };
    }

    -- Steps 7 and 8.
    unfoldable pub submit : InferOptions g.Text → Prepared → Async W String
    unfolding submission_of throw_when ◌>>◌
    submit options p = do
      services.quorum_preview (record {
        model_id = model_of options;
        min_tier = 0;
        verifier_count = 2;
        zdr_required = false;
      })
      job_id ← services.submit_job (submission_of options p)
      throw_when (not (truthy job_id)) "Payment Service response did not include a job identifier"
      pure (or_default job_id "")

    -- Step 10: the answer of a completed job.
    unfoldable pub open_output :
        Option String
        → Option String
        → String
        → String
        → JobData
        → Async (Agent W) (InferenceResult g.Text)
    unfolding throw_when ◌>>◌ decrypt_output_key download_and_decrypt_output
    open_output env ipfs_env job_id task_id job = do
      throw_when (not (truthy job.output_cid)) "Job completed but no output CID found"
      let cid = or_default job.output_cid ""
      key ← decrypt_output_key services config task_id
      text ← on (download_and_decrypt_output services g env ipfs_env config cid key)
      pure (record {
        job_id = job_id;
        task_id = task_id;
        status = "COMPLETED";
        output = some text;
        output_cid = some cid;
        commitment_hash = job.result_hash;
      })

    -- What a job that is over comes to.
    unfoldable pub conclude :
        Option String
        → Option String
        → String
        → String
        → JobData
        → Async (Agent W) (InferenceResult g.Text)
    conclude env ipfs_env job_id task_id job =
        if is_completed job
        then open_output env ipfs_env job_id task_id job
        else pure (record {
          job_id = job_id;
          task_id = task_id;
          status = job.status;
          output = none;
          output_cid = none;
          commitment_hash = none;
        })

    -- Steps 9 and 10.
    unfoldable pub finish :
        Option String → Option String → String → String → Async (Agent W) (InferenceResult g.Text)
    unfolding open_output poll_job_status conclude
    finish env ipfs_env job_id task_id =
        on (poll_job_status job_id 60) >>= conclude env ipfs_env job_id task_id

    abbrev with_client : InferOptions g.Text → Option (CofheClient W) → Async (Agent W) Prepared
    with_client options none = throw "CoFHE client failed to initialize"
    with_client options (some client) = on (prepare client options)

    unfoldable pub prepare_with : InferOptions g.Text → Async (Agent W) Prepared
    unfolding prepare
    prepare_with options agent = with_client options agent.cofhe_client agent

    unfoldable pub infer :
        Option String
        → Option String
        → InferOptions g.Text
        → Async (Agent W) (InferenceResult g.Text)
    unfolding finish submit prepare_with ◌>>◌
    infer env ipfs_env options = do
      init_cofhe services
      p ← prepare_with options
      job_id ← on (submit options p)
      finish env ipfs_env job_id p.task_id
