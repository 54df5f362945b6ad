-- ===== src/Sdk/Server/Replies.antt =====
-- The replies of the local server.
use blindference.Prelude.{ℕ, String, err, ◌≡◌, Option, some, ok, or_text}
use blindference.Bytes.{Buffer}
use blindference.Crypto.{Gcm}
use blindference.Sdk.Agent.{Agent, Services, Config}
use blindference.Sdk.Agent.Jobs.{InferenceResult}
use blindference.Sdk.Agent.Outcomes.{Final}
use blindference.Sdk.Server.{Body, Reply, InferBody, run_inference}

module _ {W : Type 0} (services : Services W) (g : Gcm) (size : g.Text → ℕ) (config : Config)
    (random_bytes : ℕ → Buffer) (draws : ℕ → ℕ) (env ipfs_env : Option String) where
  -- The reply to a prompt, and what the agent is left as: 200 with the result that the run came back
  -- with, which is final, or 500 with the error that it threw.
  pub data Answered (prompt : g.Text) (body : InferBody g.Text) (a : Agent W)
      : Reply g.Text → Agent W → Type 0 where
    came :
        (r : InferenceResult g.Text) (b : Agent W)
        → run_inference services g size config random_bytes draws env ipfs_env prompt body a
          ≡ (ok r, b)
        → Final services g config random_bytes draws env ipfs_env r
        → Answered prompt body a (record { code = 200; body = Body.result r }) b
    threw :
        (e : String) (b : Agent W)
        → run_inference services g size config random_bytes draws env ipfs_env prompt body a
          ≡ (err e, b)
        → Answered prompt body a
            (record { code = 500; body = Body.error (or_text (some e) "Inference failed") })
            b
