-- ===== src/Sdk/Cli.antt =====
-- network/packages/agent-sdk/src/cli.ts: the commands, from their options to what they print and the
-- exit code. Commander, which reads the options, is not modelled: an option that is not given is
-- `none`, and gets its default here.
pub mod Reports
pub mod Purchases
use blindference.Prelude.{
  ℕ, zero, suc, String, Bool, str_eq, if◌then◌else◌, List, [], ◌∷◌, ◌++◌, Option, none, some,
  Result, ok, err, or_default, or_text, truthy, decimal, ◌<+>◌,
}
use blindference.Bytes.{Buffer}
use blindference.Crypto.{Gcm}
use blindference.Async.{Async}
use blindference.Sdk.Agent.{
  Agent, AgentConfig, Config, CreditBalance, Services, configure, init_cofhe, replace_port,
}
use blindference.Sdk.Agent.Credits.{Purchase, get_balance, purchase_package}
use blindference.Sdk.Agent.Jobs.{InferOptions, InferenceResult, infer}

-- What the commands read of the environment.
pub record CliEnv : Type 0 where
  pub blindference_private_key : Option String
  pub private_key : Option String
  pub blindference_ipfs_gateway : Option String
  pub ipfs_gateway : Option String

-- The key, where there is one.
unfoldable pub key_of : CliEnv → Option String
key_of env =
    if truthy env.blindference_private_key
    then env.blindference_private_key
    else if truthy env.private_key
    then env.private_key
    else none

abbrev pub default_payment_service : String
default_payment_service = "http://localhost:8001"

abbrev pub default_rpc_url : String
default_rpc_url = "https://sepolia-rollup.arbitrum.io/rpc"

abbrev pub default_gateway : CliEnv → String
default_gateway env =
    or_text env.blindference_ipfs_gateway (or_text env.ipfs_gateway "https://ipfs.io/ipfs")

-- The options of `infer` that go into the agent's configuration.
pub record NetworkOptions : Type 0 where
  pub payment_service : Option String
  pub icl : Option String
  pub ipfs_gateway : Option String
  pub rpc_url : Option String
  pub prompt_key_store : Option String

unfoldable pub agent_config : CliEnv → NetworkOptions → String → AgentConfig
unfolding replace_port
agent_config env options key =
    let payment_service = or_default options.payment_service default_payment_service in
    record {
      private_key = key;
      payment_service_url = payment_service;
      icl_url = some (or_text options.icl (replace_port payment_service));
      ipfs_gateway = some (or_default options.ipfs_gateway (default_gateway env));
      pinata_jwt = none;
      rpc_url = or_default options.rpc_url default_rpc_url;
      chain_id = none;
      prompt_key_store_address = options.prompt_key_store;
    }

pub record InferArgs (Text : Type 0) : Type 0 where
  pub prompt : Text
  pub model : Option String
  pub currency : Option String
  pub insurance : Bool
  pub network : NetworkOptions

pub data Line (Text : Type 0) : Type 0 where
  log : String → Line Text
  -- `console.log(`\n   Output:\n   ${result.output}`)`
  log_output : Text → Line Text
  -- `console.error('Error:', err.message || err)`, of an error with this message
  failure : String → Line Text

-- What a command prints, and the code with which it exits.
pub record Report (Text : Type 0) : Type 0 where
  pub lines : List (Line Text)
  pub code : ℕ

abbrev pub missing_key : {Text : Type 0} → Report Text
missing_key = record {
  lines =
      Line.failure "BLINDFERENCE_PRIVATE_KEY or PRIVATE_KEY environment variable is required" ∷ [];
  code = 1;
}

module _ {W : Type 0} (g : Gcm) (size : g.Text → ℕ) (services : Config → Services W) where
  -- `if (result.output)`
  abbrev pub output_lines : Option g.Text → List (Line g.Text)
  output_lines none = []
  output_lines (some text) = elim (size text) [ zero ↦ [] | suc n ↦ Line.log_output text ∷ [] ]

  unfoldable pub result_lines : InferenceResult g.Text → List (Line g.Text)
  result_lines result =
      if str_eq result.status "COMPLETED"
      then Line.log "\n✅ Inference completed"
        ∷ Line.log ("   Job ID:    " <+> result.job_id)
        ∷ Line.log ("   Task ID:   " <+> result.task_id)
        ∷ output_lines result.output
      else Line.log ("\n❌ Inference " <+> result.status)
        ∷ Line.log ("   Job ID:  " <+> result.job_id)
        ∷ Line.log ("   Task ID: " <+> result.task_id)
        ∷ []

  abbrev pub initializing : Line g.Text
  initializing = Line.log "Initializing CoFHE client..."

  abbrev pub submitting : Line g.Text
  submitting = Line.log "Submitting inference..."

  abbrev pub options_of : InferArgs g.Text → InferOptions g.Text
  options_of args = record {
    prompt = args.prompt;
    prompt_length = size args.prompt;
    model_id = some (or_default args.model "groq:llama-3.3-70b-versatile");
    currency = some (or_default args.currency "cUSDC");
    insurance = some args.insurance;
  }

  -- `try { … } catch (err) { console.error(…); process.exit(1) }`, behind lines that are printed.
  abbrev pub ended :
      {A : Type 0} → List (Line g.Text) → (A → List (Line g.Text)) → Result A → Report g.Text
  ended before lines (ok a) = record { lines = before ++ lines a; code = 0 }
  ended before lines (err e) = record { lines = before ++ Line.failure e ∷ []; code = 1 }

  module _ (random_bytes : ℕ → Buffer) (draws : ℕ → ℕ) (env : CliEnv) where
    abbrev pub config_of : NetworkOptions → String → Config
    config_of options key =
        configure env.blindference_ipfs_gateway env.ipfs_gateway (agent_config env options key)

    -- Behind the client's initialisation.
    unfoldable pub infer_on :
        Config → InferArgs g.Text → Result (Unit {0}) → Agent W → Report g.Text × Agent W
    unfolding result_lines
    infer_on config args (err e) agent = (ended (initializing ∷ []) result_lines (err e), agent)
    infer_on config args (ok u) agent =
        let (result, agent') =
          infer (services config) g config random_bytes draws env.blindference_ipfs_gateway
            env.ipfs_gateway (options_of args) agent in
        (ended (initializing ∷ submitting ∷ []) result_lines result, agent')

    abbrev pub infer_with : InferArgs g.Text → Option String → W → Report g.Text × W
    infer_with args none w = (missing_key, w)
    infer_with args (some key) w =
        let config = config_of args.network key in
        let (ready, agent) =
          init_cofhe (services config) (record { cofhe_client = none; world = w }) in
        let (report, agent') = infer_on config args ready agent in (report, agent'.world)

    unfoldable pub infer_command : InferArgs g.Text → W → Report g.Text × W
    unfolding infer_on key_of
    infer_command args w = infer_with args (key_of env) w

    -- The configuration of `balance` and `buy-package`, which leave the rest to the agent.
    abbrev pub account_config : Option String → Option String → String → Config
    account_config payment_service rpc_url key =
        configure env.blindference_ipfs_gateway env.ipfs_gateway (record {
          private_key = key;
          payment_service_url = or_default payment_service default_payment_service;
          icl_url = none;
          ipfs_gateway = none;
          pinata_jwt = none;
          rpc_url = or_default rpc_url default_rpc_url;
          chain_id = none;
          prompt_key_store_address = none;
        })

    unfoldable pub balance_lines : CreditBalance → List (Line g.Text)
    balance_lines balance =
        Line.log "\n💰 Credit Balances"
        ∷ Line.log ("   Address:   " <+> balance.user_address)
        ∷ Line.log ("   cUSDC:     " <+> decimal balance.balance_cusdc)
        ∷ Line.log ("   BLIND:     " <+> decimal balance.balance_blind)
        ∷ Line.log ("   Total Deposited cUSDC: " <+> decimal balance.total_deposited_cusdc)
        ∷ Line.log ("   Total Deposited BLIND: " <+> decimal balance.total_deposited_blind)
        ∷ Line.log ("   Total Spent cUSDC:     " <+> decimal balance.total_spent_cusdc)
        ∷ Line.log ("   Total Spent BLIND:     " <+> decimal balance.total_spent_blind)
        ∷ []

    abbrev pub balance_with : Option String → Option String → W → Report g.Text × W
    balance_with payment_service none w = (missing_key, w)
    balance_with payment_service (some key) w =
        let config = account_config payment_service none key in
        let (answer, w') = get_balance (services config) none w in
        (ended [] balance_lines answer, w')

    unfoldable pub balance_command : Option String → W → Report g.Text × W
    unfolding key_of balance_lines get_balance
    balance_command payment_service w = balance_with payment_service (key_of env) w

    unfoldable pub purchase_lines : Purchase → List (Line g.Text)
    purchase_lines purchase =
        Line.log "\n✅ Package purchased"
        ∷ Line.log ("   Tx Hash:       " <+> purchase.tx_hash)
        ∷ Line.log ("   New cUSDC:     " <+> decimal purchase.balance.balance_cusdc)
        ∷ Line.log ("   New BLIND:     " <+> decimal purchase.balance.balance_blind)
        ∷ []

    abbrev pub buy_with :
        String → Option String → Option String → Option String → W → Report g.Text × W
    buy_with id payment_service rpc_url none w = (missing_key, w)
    buy_with id payment_service rpc_url (some key) w =
        let config = account_config payment_service rpc_url key in
        let (answer, w') = purchase_package (services config) id w in
        (
          ended (Line.log ("Purchasing package \"" <+> id <+> "\"...") ∷ []) purchase_lines answer,
          w',
        )

    unfoldable pub buy_package_command :
        String → Option String → Option String → W → Report g.Text × W
    unfolding key_of purchase_lines purchase_package
    buy_package_command id payment_service rpc_url w =
        buy_with id payment_service rpc_url (key_of env) w
