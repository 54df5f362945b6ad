-- ===== src/Scripts/Coverage.antt =====
-- payment/scripts/file_dispute.ts and payment/scripts/purchase_insurance.ts. The clock is read in
-- milliseconds; the hash of the mock id and the encodings are arguments.
use blindference.Prelude.{
  ℕ, ◌+◌, ◌*◌, ◌/◌, ◌%◌, ◌^◌, String, List, [], ◌∷◌, Option, Result, or_text, decimal, ◌<+>◌,
}
use blindference.Async.{Async, pure, lift, try_catch, ◌>>=◌, ◌>>◌}
use blindference.Scripts.{required, or_else}
use blindference.Scripts.Args.{DisputeArgs, dispute_args, InsuranceArgs, insurance_args}

-- The keys of the two scripts, the first of which is their own, the RPC and the gate.
pub record CoverageEnv : Type 0 where
  pub own_private_key : Option String
  pub private_key : Option String
  pub arbitrum_sepolia_rpc : Option String
  pub arbitrum_sepolia_rpc_url : Option String
  pub inference_gate_address : Option String

-- What `purchaseCoverage` is called with.
pub record CoverageRequest : Type 0 where
  pub pool : String
  pub policy : String
  pub escrow_id : ℕ
  pub coverage_amount : ℕ
  pub expiry : ℕ
  pub policy_data : String
  pub risk_proof : String

pub record CoverageSdk (W : Type 0) : Type 0 where
  pub create_sdk : String → Option String → Async W (Unit {0})
  pub initialize : Async W (Unit {0})
  pub dispute : ℕ → String → Async W (Unit {0})
  pub purchase_coverage : CoverageRequest → Async W ℕ
  -- `Date.now()`, in milliseconds
  pub now : W → ℕ
  pub encode_policy : ℕ → String → String → Result String
  pub encode_price : ℕ → Result String
  pub keccak256 : String → ℕ

module _ {W : Type 0} (sdk : CoverageSdk W) (big_int : String → Result ℕ) (env : CoverageEnv) where
  abbrev pub rpc_url : Option String
  rpc_url = or_else env.arbitrum_sepolia_rpc env.arbitrum_sepolia_rpc_url

  -- An initialisation that fails is only a warning.
  unfoldable pub start_sdk : String → Async W (Unit {0})
  unfolding ◌>>◌
  start_sdk key = do sdk.create_sdk key rpc_url; try_catch sdk.initialize (λ e. pure tt)

  -- The failure of a dispute prints the same as its success.
  unfoldable pub dispute_printed : DisputeArgs → Async W (List String)
  dispute_printed args =
      try_catch (sdk.dispute args.coverage_id args.dispute_proof >>= λ u. pure ("true" ∷ []))
        (λ e. pure ("true" ∷ []))

  unfoldable pub file_dispute : List String → Async W (List String)
  unfolding dispute_args start_sdk dispute_printed ◌>>◌
  file_dispute argv = do
    args ← lift (dispute_args big_int argv)
    key ← lift (
        required "Missing DISPUTE_AUTHORITY_PRIVATE_KEY or PRIVATE_KEY env var"
          (or_else env.own_private_key env.private_key))
    start_sdk key
    dispute_printed args

  abbrev pub mock_coverage_id : InsuranceArgs → ℕ
  mock_coverage_id args =
      sdk.keccak256 ("mock-coverage:" <+> decimal args.escrow_id <+> ":" <+> args.job_id) % 2 ^ 64

  unfoldable pub request_of : InsuranceArgs → String → String → ℕ → CoverageRequest
  request_of args policy_data risk_proof now = record {
    pool = args.pool_address;
    policy = args.policy_address;
    escrow_id = args.escrow_id;
    coverage_amount = args.amount;
    expiry = now / 1000 + 30 * 86400;
    policy_data = policy_data;
    risk_proof = risk_proof;
  }

  abbrev pub buying : InsuranceArgs → String → String → Async W ℕ
  buying args policy_data risk_proof w =
      sdk.purchase_coverage (request_of args policy_data risk_proof (sdk.now w)) w

  -- A purchase that fails prints the mock id.
  unfoldable pub purchase_printed : InsuranceArgs → String → String → Async W (List String)
  unfolding request_of
  purchase_printed args policy_data risk_proof =
      try_catch (buying args policy_data risk_proof >>= λ id. pure (decimal id ∷ []))
        (λ e. pure (decimal (mock_coverage_id args) ∷ []))

  abbrev pub gate : String
  gate = or_text env.inference_gate_address "0x0000000000000000000000000000000000000000"

  abbrev pub own_key : Result String
  own_key =
      required "Missing ICL_WALLET_PRIVATE_KEY or PRIVATE_KEY env var"
        (or_else env.own_private_key env.private_key)

  unfoldable pub purchase_insurance : List String → Async W (List String)
  unfolding insurance_args start_sdk purchase_printed ◌>>◌
  purchase_insurance argv = do
    args ← lift (insurance_args big_int argv)
    key ← lift own_key
    start_sdk key
    policy_data ← lift (sdk.encode_policy args.amount args.job_id gate)
    risk_proof ← lift (sdk.encode_price args.amount)
    purchase_printed args policy_data risk_proof
