-- ===== src/Scripts/Insured.antt =====
-- What payment/scripts/purchase_insurance.ts prints.
use blindference.Prelude.{◌⊎◌, ℕ, ◌<◌, ◌^◌, String, ◌≡◌, List, [], ◌∷◌, Result, ok, err, decimal}
use blindference.Async.{Async, lift, ◌>>=◌}
use blindference.Scripts.{Exit, exit_of}
use blindference.Scripts.Args.{InsuranceArgs, insurance_args}
use blindference.Scripts.Coverage.{
  CoverageEnv, CoverageSdk, start_sdk, mock_coverage_id, own_key, gate, request_of,
  purchase_printed,
}

-- What a run of purchase_insurance comes to.
module _ {W : Type 0} (sdk : CoverageSdk W) (big_int : String → Result ℕ) (env : CoverageEnv)
    (argv : List String) (start : W) where
  -- The steps before the purchase, and the state that they leave.
  pub record Ready (args : InsuranceArgs) (policy_data risk_proof : String) (ready : W)
      : Type 0 where
    pub key : String
    pub read : insurance_args big_int argv ≡ ok args
    pub keyed : own_key sdk big_int env ≡ ok key
    pub started : start_sdk sdk big_int env key start ≡ (ok tt, ready)
    pub policy : sdk.encode_policy args.amount args.job_id (gate sdk big_int env) ≡ ok policy_data
    pub price : sdk.encode_price args.amount ≡ ok risk_proof

  -- The first of those steps that threw, and the state that it left.
  pub data Unready : W → Type 0 where
    unread : (e : String) → insurance_args big_int argv ≡ err e → Unready start
    keyless :
        (args : InsuranceArgs) (e : String)
        → insurance_args big_int argv ≡ ok args
        → own_key sdk big_int env ≡ err e
        → Unready start
    unstarted :
        (args : InsuranceArgs) (key e : String) (w : W)
        → insurance_args big_int argv ≡ ok args
        → own_key sdk big_int env ≡ ok key
        → start_sdk sdk big_int env key start ≡ (err e, w)
        → Unready w
    unencoded :
        (args : InsuranceArgs) (key e : String) (w : W)
        → insurance_args big_int argv ≡ ok args
        → own_key sdk big_int env ≡ ok key
        → start_sdk sdk big_int env key start ≡ (ok tt, w)
        → (sdk.encode_policy args.amount args.job_id (gate sdk big_int env) ≡ err e)
          ⊎ (sdk.encode_price args.amount ≡ err e)
        → Unready w

  -- What the script prints, its exit code and the state that it leaves: the id of the coverage that it
  -- purchased, the mock id where the purchase threw, or nothing where it did not come to a purchase.
  pub data Covered : Exit → W → Type 0 where
    purchased :
        (args : InsuranceArgs) (policy_data risk_proof : String) (id : ℕ) (ready end : W)
        → Ready args policy_data risk_proof ready
        → sdk.purchase_coverage
            (request_of sdk big_int env args policy_data risk_proof (sdk.now ready))
            ready
          ≡ (ok id, end)
        → Covered (record { stdout = decimal id ∷ []; code = 0 }) end
    mocked :
        (args : InsuranceArgs) (policy_data risk_proof e : String) (ready end : W)
        → Ready args policy_data risk_proof ready
        → sdk.purchase_coverage
            (request_of sdk big_int env args policy_data risk_proof (sdk.now ready))
            ready
          ≡ (err e, end)
        → mock_coverage_id sdk big_int env args < 2 ^ 64
        → Covered
            (record { stdout = decimal (mock_coverage_id sdk big_int env args) ∷ []; code = 0 })
            end
    uncovered : (w : W) → Unready w → Covered (record { stdout = []; code = 1 }) w

  abbrev Ends : Result (List String) × W → Type 0
  Ends out = Covered (exit_of out.0) out.1

  abbrev priced : InsuranceArgs → String → Async W (List String)
  priced args policy_data =
      lift (sdk.encode_price args.amount) >>= purchase_printed sdk big_int env args policy_data

  abbrev encoded : InsuranceArgs → Async W (List String)
  encoded args =
      lift (sdk.encode_policy args.amount args.job_id (gate sdk big_int env)) >>= priced args
