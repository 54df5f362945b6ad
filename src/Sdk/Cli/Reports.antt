-- ===== src/Sdk/Cli/Reports.antt =====
-- What the commands of the agent SDK report.
use blindference.Prelude.{ℕ, String, ◌≡◌, refl, [], ◌∷◌, Option, none, some, Result, ok, err}
use blindference.Bytes.{Buffer}
use blindference.Crypto.{Gcm}
use blindference.Sdk.Agent.{Agent, Config, Services, init_cofhe}
use blindference.Sdk.Agent.Jobs.{InferenceResult, infer}
use blindference.Sdk.Agent.Outcomes.{Final, infer-Final}
use blindference.Sdk.Cli.{
  missing_key, CliEnv, InferArgs, Line, Report, key_of, initializing, submitting, options_of, ended,
  result_lines, config_of, infer_on, infer_with, infer_command,
}

module _ {W : Type 0} (g : Gcm) (size : g.Text → ℕ) (services : Config → Services W)
    (random_bytes : ℕ → Buffer) (draws : ℕ → ℕ) (env : CliEnv) (args : InferArgs g.Text) where
  abbrev configured : String → Config
  configured key = config_of g size services random_bytes draws env args.network key

  abbrev fresh : W → Agent W
  fresh w = record { cofhe_client = none; world = w }

  abbrev inference : String → Agent W → Result (InferenceResult g.Text) × Agent W
  inference key =
      infer (services (configured key)) g (configured key) random_bytes draws
        env.blindference_ipfs_gateway env.ipfs_gateway (options_of g size services args)

  -- What `infer` prints, its exit code and the state that it leaves, by how far its run came: no key,
  -- no client, an inference that threw, or one that came back.
  pub data Reported (w : W) : Report g.Text → W → Type 0 where
    keyless : key_of env ≡ none → Reported w missing_key w
    unconnected :
        (key e : String) (a : Agent W)
        → key_of env ≡ some key
        → init_cofhe (services (configured key)) (fresh w) ≡ (err e, a)
        → Reported w
            (record { lines = initializing g size services ∷ Line.failure e ∷ []; code = 1 })
            a.world
    threw :
        (key e : String) (a b : Agent W)
        → key_of env ≡ some key
        → init_cofhe (services (configured key)) (fresh w) ≡ (ok tt, a)
        → inference key a ≡ (err e, b)
        → Reported w
            (record {
              lines =
                  initializing g size services ∷ submitting g size services ∷ Line.failure e ∷ [];
              code = 1;
            })
            b.world
    final :
        (key : String) (r : InferenceResult g.Text) (a b : Agent W)
        → key_of env ≡ some key
        → init_cofhe (services (configured key)) (fresh w) ≡ (ok tt, a)
        → inference key a ≡ (ok r, b)
        → Final
            (services (configured key))
            g
            (configured key)
            random_bytes
            draws
            env.blindference_ipfs_gateway
            env.ipfs_gateway
            r
        → Reported w
            (record {
              lines =
                  initializing g size services
                  ∷ submitting g size services
                  ∷ result_lines g size services r;
              code = 0;
            })
            b.world

  inferred_from :
      (key : String) (w : W) (a b : Agent W) (answer : Result (InferenceResult g.Text))
      → key_of env ≡ some key
      → init_cofhe (services (configured key)) (fresh w) ≡ (ok tt, a)
      → inference key a ≡ (answer, b)
      → Reported w
          (ended g size services
            (initializing g size services ∷ submitting g size services ∷ [])
            (result_lines g size services)
            answer)
          b.world
  inferred_from key w a b (ok r) there ready h = Reported.final key r a b there ready h (
      infer-Final (services (configured key)) g (configured key) random_bytes draws
        env.blindference_ipfs_gateway env.ipfs_gateway (options_of g size services args) a b r h)
  inferred_from key w a b (err e) there ready h = Reported.threw key e a b there ready h

  connected_from :
      (key : String) (w : W) (a : Agent W) (ready : Result (Unit {0}))
      → key_of env ≡ some key
      → init_cofhe (services (configured key)) (fresh w) ≡ (ready, a)
      → let out = infer_on g size services random_bytes draws env (configured key) args ready a in
        Reported w out.0 out.1.world
  unfolding infer_on
  connected_from key w a (ok u) there h =
      let run = inference key a in inferred_from key w a run.1 run.0 there h refl
  connected_from key w a (err e) there h = Reported.unconnected key e a there h

  keyed_from :
      (key : Option String) (w : W)
      → key_of env ≡ key
      → let out = infer_with g size services random_bytes draws env args key w in
        Reported w out.0 out.1
  keyed_from none w missing = Reported.keyless missing
  keyed_from (some key) w there =
      let start = init_cofhe (services (configured key)) (fresh w) in
      connected_from key w start.1 start.0 there refl

  -- `infer` exits with 0 exactly where the agent's own inference comes back, and then it prints the
  -- lines of that result, which is final, a job that failed or was refunded included. Without a key,
  -- or where the client's initialisation or the inference throws, it exits with 1 and its last line is
  -- that error. The state is the one that the run left.
  pub infer_command-Reported :
      (w : W)
      → let out = infer_command g size services random_bytes draws env args w in
        Reported w out.0 out.1
  unfolding infer_command
  infer_command-Reported w = keyed_from (key_of env) w refl
