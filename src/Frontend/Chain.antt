-- ===== src/Frontend/Chain.antt =====
-- The transactions of the web client. Every file of network/packages/frontend/src that sends one
-- holds the same estimation of its fees (lib/promptKeyStore.ts, lib/inputVault.ts,
-- hooks/useBlindFaucet.ts, components/DepositModal.tsx, pages/BuyCreditsPage.tsx). The clients of viem
-- are a record of actions.
pub mod Fees
use blindference.Prelude.{
  ℕ, ◌+◌, ◌*◌, String, not, ltb, str_eq, if◌then◌else◌, List, Option, none, some,
}
use blindference.Async.{Async, pure, try_catch, throw_when, ◌>>=◌, ◌>>◌}
use blindference.Sdk.Agent.{ContractInput, FeeParams}

-- What `writeContract` is called with, beside the account and the fees.
pub data Call : Type 0 where
  store_key :
      (store task_id : String) (high low : ContractInput) (allowed_nodes : List String) → Call
  store_encrypted_inputs :
      (vault loan_id : String) (credit_score loan_amount account_age prev_defaults : ContractInput)
      → Call
  drip : (faucet : String) → Call
  approve : (token spender : String) (amount : ℕ) → Call
  transfer : (token to : String) (amount : ℕ) → Call

-- `publicClient` and `walletClient`: the base fee of the latest block, the estimates, the wallet's
-- signature, and the status of a transaction's receipt.
pub record Chain (W : Type 0) : Type 0 where
  pub base_fee_per_gas : Async W (Option ℕ)
  pub estimate_max_priority_fee_per_gas : Async W ℕ
  pub gas_price : Async W ℕ
  pub write_contract : Call → FeeParams → Async W String
  pub receipt_status : String → Async W String

abbrev pub fallback_priority_fee_per_gas : ℕ
fallback_priority_fee_per_gas = 2000000

module _ {W : Type 0} (chain : Chain W) where
  abbrev pub fees_for : Option ℕ → ℕ → Async W FeeParams
  fees_for none priority = chain.gas_price >>= λ price. pure (FeeParams.legacy price)
  fees_for (some base) priority = pure (FeeParams.eip1559 priority (base * 2 + priority + 1000000))

  unfoldable pub fee_params : Async W FeeParams
  fee_params = do
    base_fee_per_gas ← chain.base_fee_per_gas
    estimate ←
        try_catch chain.estimate_max_priority_fee_per_gas (λ e. pure fallback_priority_fee_per_gas)
    let priority = if ltb 0 estimate then estimate else fallback_priority_fee_per_gas
    fees_for base_fee_per_gas priority

  -- The estimate and the signature.
  unfoldable pub write : Call → Async W String
  unfolding fee_params
  write call = do fees ← fee_params; chain.write_contract call fees

  -- A transaction that is waited for; one that was reverted throws the message.
  unfoldable pub send : Call → String → Async W String
  unfolding write throw_when ◌>>◌
  send call reverted = do
    hash ← write call
    status ← chain.receipt_status hash
    throw_when (not (str_eq status "success")) reverted
    pure hash
