-- ===== src/Sdk/Server.antt =====
-- network/packages/agent-sdk/src/server.ts: the handlers of the local server, as functions from the
-- agent's state to a reply. Express and the listening socket are not modelled.
pub mod Replies
use blindference.Prelude.{
  ℕ, zero, suc, String, Bool, true, false, if◌then◌else◌, Option, none, some, Result, ok, err,
  or_text, or_default,
}
use blindference.Bytes.{Buffer}
use blindference.Crypto.{Gcm}
use blindference.Async.{Async, ◌>>=◌, ◌>>◌}
use blindference.Sdk.Agent.{Agent, Services, Config, CreditBalance, JobData, on, init_cofhe}
use blindference.Sdk.Agent.Credits.{get_balance}
use blindference.Sdk.Agent.Jobs.{InferOptions, InferenceResult, infer}

-- What a handler sends: `res.status(code).json(body)`.
pub data Body (Text : Type 0) : Type 0 where
  health : (status agent : String) → Body Text
  balance : CreditBalance → Body Text
  result : InferenceResult Text → Body Text
  job : JobData → Body Text
  error : String → Body Text

pub record Reply (Text : Type 0) : Type 0 where
  pub code : ℕ
  pub body : Body Text

-- A field of the request's body: it is missing, a text, or of another type.
pub data Field (Text : Type 0) : Type 0 where
  missing other : Field Text
  text : Text → Field Text

pub record InferBody (Text : Type 0) : Type 0 where
  pub prompt : Field Text
  pub model_id : Option String
  pub currency : Option String
  pub insurance : Option Bool

abbrev pub prompt_of : {Text : Type 0} → (Text → ℕ) → Field Text → Option Text
prompt_of size (text t) = elim (size t) [ zero ↦ none | suc n ↦ some t ]
prompt_of size _ = none

-- `try { res.json(…) } catch (err) { res.status(500).json({ error: err.message || fallback }) }`
abbrev pub reply : {A Text : Type 0} → (A → Body Text) → String → Result A → Reply Text
reply body fallback (ok a) = record { code = 200; body = body a }
reply body fallback (err e) = record { code = 500; body = Body.error (or_text (some e) fallback) }

module _ {W : Type 0} (services : Services W) (g : Gcm) (size : g.Text → ℕ) where
  unfoldable pub get_health : Reply g.Text
  get_health = record { code = 200; body = Body.health "ok" services.address }

  unfoldable pub get_balance_reply : Agent W → Reply g.Text × Agent W
  unfolding get_balance
  get_balance_reply agent =
      let (answer, agent') = on (get_balance services none) agent in
      (reply Body.balance "Failed to fetch balance" answer, agent')

  unfoldable pub get_status : String → Agent W → Reply g.Text × Agent W
  get_status job_id agent =
      let (answer, agent') = on (services.get_job job_id) agent in
      (reply Body.job "Failed to fetch status" answer, agent')

  abbrev pub options_of : g.Text → InferBody g.Text → InferOptions g.Text
  options_of prompt body = record {
    prompt = prompt;
    prompt_length = size prompt;
    model_id = body.model_id;
    currency = some (or_text body.currency "cUSDC");
    insurance = some (or_default body.insurance false);
  }

  module _ (config : Config) (random_bytes : ℕ → Buffer) (draws : ℕ → ℕ)
      (env ipfs_env : Option String) where
    unfoldable pub run_inference :
        g.Text → InferBody g.Text → Async (Agent W) (InferenceResult g.Text)
    unfolding ◌>>◌
    run_inference prompt body = do
      init_cofhe services
      infer services g config random_bytes draws env ipfs_env (options_of prompt body)

    abbrev answer_prompt : InferBody g.Text → Option g.Text → Agent W → Reply g.Text × Agent W
    answer_prompt body none agent =
        (record { code = 400; body = Body.error "Missing required field: prompt" }, agent)
    answer_prompt body (some prompt) agent =
        let (answer, agent') = run_inference prompt body agent in
        (reply Body.result "Inference failed" answer, agent')

    unfoldable pub post_infer : InferBody g.Text → Agent W → Reply g.Text × Agent W
    unfolding run_inference
    post_infer body agent = answer_prompt body (prompt_of size body.prompt) agent
