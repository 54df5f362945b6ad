-- ===== src/Scripts/Escrow.antt =====
-- payment/scripts/create_escrow.ts.
use blindference.Prelude.{
  ℕ, String, if◌then◌else◌, List, [], ◌∷◌, Option, Result, ok, truthy, or_default, decimal,
}
use blindference.Async.{Async, pure, lift, ◌>>=◌, ◌>>◌}
use blindference.Scripts.{required, or_else}
use blindference.Scripts.Args.{EscrowArgs, escrow_args}

pub record EscrowEnv : Type 0 where
  pub icl_wallet_private_key : Option String
  pub arbitrum_sepolia_rpc : Option String
  pub arbitrum_sepolia_rpc_url : Option String

pub record EscrowSdk (W : Type 0) : Type 0 where
  pub create_sdk : String → String → Async W (Unit {0})
  -- `sdk.usdc(amount)`
  pub usdc : ℕ → ℕ
  pub encode_bytes32 : String → Result String
  -- amount, owner, resolver and resolver data; the id of the escrow
  pub create : ℕ → String → String → String → Async W ℕ
  pub fund : ℕ → ℕ → Async W (Unit {0})

unfoldable pub resolver_data_of : (String → Result String) → EscrowArgs → Result String
resolver_data_of encode args =
    if truthy args.resolver_data then ok (or_default args.resolver_data "") else encode args.job_id

module _ {W : Type 0} (sdk : EscrowSdk W) where
  -- The escrow is created and funded, and its id is the only line.
  unfoldable pub create_and_fund : EscrowArgs → String → Async W (List String)
  unfolding ◌>>◌
  create_and_fund args policy = do
    id ← sdk.create (sdk.usdc args.amount) args.owner args.resolver policy
    sdk.fund id (sdk.usdc args.amount)
    pure (decimal id ∷ [])

  unfoldable pub create_escrow : (String → ℕ) → EscrowEnv → List String → Async W (List String)
  unfolding escrow_args resolver_data_of create_and_fund ◌>>◌
  create_escrow number env argv = do
    args ← lift (escrow_args number argv)
    key ← lift (required "Missing ICL_WALLET_PRIVATE_KEY env var" env.icl_wallet_private_key)
    url ← lift (
        required "Missing ARBITRUM_SEPOLIA_RPC or ARBITRUM_SEPOLIA_RPC_URL env var"
          (or_else env.arbitrum_sepolia_rpc env.arbitrum_sepolia_rpc_url))
    sdk.create_sdk key url
    policy ← lift (resolver_data_of sdk.encode_bytes32 args)
    create_and_fund args policy
