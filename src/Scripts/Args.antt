-- ===== src/Scripts/Args.antt =====
-- `parseArgs` of the three scripts. Amounts are whole numbers.
use blindference.Prelude.{ℕ, String, List, Option, Result, ok, ◌>>=◌}
use blindference.Scripts.{get, required}

pub record EscrowArgs : Type 0 where
  pub amount : ℕ
  pub job_id : String
  pub owner : String
  pub resolver : String
  pub resolver_data : Option String

unfoldable pub escrow_args : (String → ℕ) → List String → Result EscrowArgs
unfolding get
escrow_args number args = do
  let usage : String = "Usage: npx ts-node scripts/create_escrow.ts"
  amount ← required usage (get "--amount" args)
  job_id ← required usage (get "--job-id" args)
  owner ← required usage (get "--owner" args)
  resolver ← required usage (get "--resolver" args)
  ok (record {
    amount = number amount;
    job_id = job_id;
    owner = owner;
    resolver = resolver;
    resolver_data = get "--resolver-data" args;
  })

pub record DisputeArgs : Type 0 where
  pub coverage_id : ℕ
  pub dispute_proof : String

unfoldable pub dispute_args : (String → Result ℕ) → List String → Result DisputeArgs
unfolding get
dispute_args big_int args = do
  let usage : String = "Usage: npx ts-node scripts/file_dispute.ts"
  coverage_id ← required usage (get "--coverage-id" args)
  dispute_proof ← required usage (get "--dispute-proof" args)
  id ← big_int coverage_id
  ok (record { coverage_id = id; dispute_proof = dispute_proof })

pub record InsuranceArgs : Type 0 where
  pub escrow_id : ℕ
  pub amount : ℕ
  pub job_id : String
  pub policy_address : String
  pub pool_address : String

unfoldable pub insurance_args : (String → Result ℕ) → List String → Result InsuranceArgs
unfolding get
insurance_args big_int args = do
  let usage : String = "Usage: npx ts-node scripts/purchase_insurance.ts"
  escrow_id ← required usage (get "--escrow-id" args)
  amount ← required usage (get "--amount" args)
  job_id ← required usage (get "--job-id" args)
  policy_address ← required usage (get "--policy-addr" args)
  pool_address ← required usage (get "--pool-addr" args)
  id ← big_int escrow_id
  price ← big_int amount
  ok (record {
    escrow_id = id;
    amount = price;
    job_id = job_id;
    policy_address = policy_address;
    pool_address = pool_address;
  })
