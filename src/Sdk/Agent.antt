-- ===== src/Sdk/Agent.antt =====
-- network/packages/agent-sdk/src/agent.ts: the configuration of an agent, the services behind its
-- HTTP clients and its wallet (arguments of the model), and the CoFHE client that it keeps.
pub mod Opening
pub mod Keys
pub mod Jobs
pub mod Credits
pub mod Polling
pub mod Outcomes
pub mod Fees
use blindference.Prelude.{
  ℕ, suc, String, Bool, if◌then◌else◌, Option, none, some, List, ok, err, or_text, ◌<+>◌,
  starts_with,
}
use Prim.Native.String
use blindference.Bytes.{Buffer}
use blindference.Async.{Async, pure, throw, ◌>>=◌, ◌>>◌}
use blindference.Cofhe.{CofheClient}
use blindference.Http.{Response}

pub record AgentConfig : Type 0 where
  pub private_key : String
  pub payment_service_url : String
  pub icl_url : Option String
  pub ipfs_gateway : Option String
  pub pinata_jwt : Option String
  pub rpc_url : String
  pub chain_id : Option ℕ
  pub prompt_key_store_address : Option String

-- The configuration with its defaults.
pub record Config : Type 0 where
  pub private_key : String
  pub payment_service_url : String
  pub icl_url : String
  pub ipfs_gateway : String
  pub pinata_jwt : String
  pub rpc_url : String
  pub chain_id : ℕ
  pub prompt_key_store_address : String

abbrev pub default_prompt_key_store_address : String
default_prompt_key_store_address = "0x1E22dD12f448B15f1Ca8560fB6B4463834FaAf73"

-- `text.replace(':8001', ':8000')`: the first occurrence alone.
unfoldable pub replace_port : String → String
replace_port (String.◌∷◌ a (String.◌∷◌ b (String.◌∷◌ c (String.◌∷◌ d (String.◌∷◌ e s))))) =
    let rest = replace_port (String.◌∷◌ b (String.◌∷◌ c (String.◌∷◌ d (String.◌∷◌ e s)))) in
    if starts_with (String.◌∷◌ a (String.◌∷◌ b (String.◌∷◌ c (String.◌∷◌ d (String.◌∷◌ e s)))))
      ":8001"
    then ":8000" <+> s
    else String.◌∷◌ a rest
replace_port s = s

abbrev or_number : Option ℕ → ℕ → ℕ
or_number (some (suc n)) d = suc n
or_number _ d = d

-- The constructor's configuration; the two gateways are those of the environment.
unfoldable pub configure : Option String → Option String → AgentConfig → Config
unfolding replace_port
configure blindference_gateway ipfs_gateway config = record {
  private_key = config.private_key;
  payment_service_url = config.payment_service_url;
  icl_url = or_text config.icl_url (replace_port config.payment_service_url);
  ipfs_gateway =
      or_text config.ipfs_gateway
        (or_text blindference_gateway (or_text ipfs_gateway "https://ipfs.io/ipfs"));
  pinata_jwt = or_text config.pinata_jwt "";
  rpc_url = config.rpc_url;
  chain_id = or_number config.chain_id 421614;
  prompt_key_store_address =
      or_text config.prompt_key_store_address default_prompt_key_store_address;
}

-- An encrypted input as the PromptKeyStore contract takes it.
pub record ContractInput : Type 0 where
  pub ct_hash : ℕ
  pub security_zone : ℕ
  pub utype : ℕ
  pub signature : String

pub data FeeParams : Type 0 where
  eip1559 : (max_priority_fee_per_gas max_fee_per_gas : ℕ) → FeeParams
  legacy : (gas_price : ℕ) → FeeParams

-- A transaction that the wallet sends: `storeKey` on the key store, or a token's `transfer`.
pub data Call : Type 0 where
  store_key :
      (address task_id : String) (high low : ContractInput) (allowed_nodes : List String)
      (fees : FeeParams)
      → Call
  transfer : (token to : String) (amount : ℕ) → Call

pub record JobData : Type 0 where
  pub status : String
  pub output_cid : Option String
  pub result_hash : Option String

pub record QuorumRequest : Type 0 where
  pub model_id : String
  pub min_tier : ℕ
  pub verifier_count : ℕ
  pub zdr_required : Bool

pub record CreditBalance : Type 0 where
  pub user_address : String
  pub balance_cusdc : ℕ
  pub balance_blind : ℕ
  pub total_deposited_cusdc : ℕ
  pub total_deposited_blind : ℕ
  pub total_spent_cusdc : ℕ
  pub total_spent_blind : ℕ

pub record CreditPackage : Type 0 where
  pub id : String
  pub name : String
  pub base_calls : ℕ
  pub bonus_percent : ℕ
  pub total_calls : ℕ
  pub price_blind : ℕ
  pub price_blind_wei : ℕ

pub record SerializedInput : Type 0 where
  pub ct_hash : String
  pub security_zone : Option ℕ
  pub utype : ℕ
  pub signature : String

pub record JobMetadata : Type 0 where
  pub high : SerializedInput
  pub low : SerializedInput
  pub prompt_length : ℕ
  pub vertical : String
  pub model : String
  pub is_agent_job : Bool
  pub uavp_enabled : Bool
  pub prompt_key_store_tx : String
  pub prompt_key_store_status : String
  pub prompt_key_store_address : String
  pub source : String

-- The body of `POST /v1/jobs/submit`.
pub record JobSubmission : Type 0 where
  pub user_address : String
  pub prompt_cid : String
  pub model_id : String
  pub encrypted_prompt_key_high : String
  pub encrypted_prompt_key_low : String
  pub payment_mode : String
  pub payment_currency : String
  pub insurance_opt_in : Bool
  pub task_id : String
  pub min_tier : ℕ
  pub zdr_required : Bool
  pub verifier_count : ℕ
  pub permits : List String
  pub metadata : JobMetadata

-- What the agent calls. Each call may change the state W, and may throw.
pub record Services (W : Type 0) : Type 0 where
  pub address : String
  -- `createCofheClient(cofheConfig)`, then its `connect`
  pub create_cofhe_client : Option (CofheClient W)
  pub connect : CofheClient W → Async W (Unit {0})
  -- `POST /v1/inference/upload-prompt` and `quorum-preview` of the ICL
  pub upload_prompt : Buffer → Async W String
  pub quorum_preview : QuorumRequest → Async W (Unit {0})
  -- the Payment Service: the job id of a submission, a job, balances and packages
  pub submit_job : JobSubmission → Async W (Option String)
  pub get_job : String → Async W JobData
  pub get_balance : String → Async W CreditBalance
  pub get_packages : Async W (List CreditPackage)
  pub purchase_package : String → String → Async W CreditBalance
  -- the chain
  pub base_fee_per_gas : Async W (Option ℕ)
  pub estimate_max_priority_fee_per_gas : Async W ℕ
  pub gas_price : Async W ℕ
  pub write_contract : Call → Async W String
  pub receipt_status : String → Async W String
  pub encrypted_key : String → String → Async W (ℕ × ℕ)
  -- `setTimeout`, `Date.now` and `fetch`
  pub sleep : ℕ → Async W (Unit {0})
  pub now : Async W ℕ
  pub fetch : String → Async W Response

-- The agent's own state beside that of the services.
pub record Agent (W : Type 0) : Type 0 where
  pub cofhe_client : Option (CofheClient W)
  pub world : W

module _ {W : Type 0} where
  -- A call of a service, on the agent's state.
  abbrev pub on : {A : Type 0} → Async W A → Async (Agent W) A
  on call agent = let (r, w) = call agent.world in (r, record agent { world = w })

  abbrev connecting : Services W → Option (CofheClient W) → Async (Agent W) (Unit {0})
  connecting services none agent =
      (err "Failed to create CoFHE client", record agent { cofhe_client = none })
  connecting services (some client) agent =
      on (services.connect client) (record agent { cofhe_client = some client })

  abbrev init_from : Services W → Option (CofheClient W) → Async (Agent W) (Unit {0})
  init_from services (some client) agent = (ok tt, agent)
  init_from services none agent = connecting services services.create_cofhe_client agent

  unfoldable pub init_cofhe : Services W → Async (Agent W) (Unit {0})
  init_cofhe services agent = init_from services agent.cofhe_client agent
