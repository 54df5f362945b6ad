-- ===== src/Frontend/Escrow.antt =====
-- `createEscrow` of network/packages/frontend/src/hooks/useCreateEscrow.ts, of an amount that is a
-- `bigint`. The Reineira SDK is an argument: `getReineiraSdk`, the creation of an escrow for a job
-- (its owner and its condition are constants) and its funding.
pub mod Outcome
use blindference.Prelude.{
  ℕ, String, Bool, true, false, not, ◌||◌, ◌==◌, starts_with, if◌then◌else◌, Option, none, some,
  Result, ok, err, or_text, text_truthy, truthy, or_default, text_length,
}
use blindference.Async.{Async, pure, ◌>>=◌, ◌>>◌}
use blindference.Cofhe.{CofheClient}

pub record CreateEscrowResult : Type 0 where
  pub escrow_id : ℕ
  pub create_tx_hash : String
  pub fund_tx_hash : String

-- The escrow that the SDK has made.
pub record Escrow : Type 0 where
  pub id : ℕ
  pub create_tx : Option String

pub record EscrowServices (W : Type 0) : Type 0 where
  pub get_reineira_sdk : Async W (Unit {0})
  pub create : ℕ → String → Async W Escrow
  -- `escrow.fund(amount, { autoApprove: true })`, and the hash of its transaction
  pub fund : Escrow → ℕ → Async W String

-- The state of the hook, and that of the services.
pub record Hook (W : Type 0) : Type 0 where
  pub world : W
  pub loading : Bool
  pub error : Option String
  pub result : Option CreateEscrowResult

-- What the hook finds of the wallet.
pub record Wallet : Type 0 where
  pub address : Option String
  pub has_clients : Bool
  pub has_cofhe : Bool

-- The first guard that fails.
unfoldable pub refusal : Wallet → ℕ → String → Option String
refusal wallet usdc_amount job_id =
    if not (truthy wallet.address) || not wallet.has_clients
    then some "Connect your wallet first"
    else if not wallet.has_cofhe
    then some "CoFHE client not ready. Please wait a moment and try again."
    else if usdc_amount == 0
    then some "Amount must be greater than 0"
    else if not (text_truthy job_id)
        || (not (starts_with job_id "0x") || not (text_length job_id == 66))
    then some "Job ID must be a valid bytes32 hex string (0x + 64 chars)"
    else none

module _ {W : Type 0} (services : EscrowServices W) where
  -- The body of the `try`.
  unfoldable pub make : ℕ → String → Async W CreateEscrowResult
  unfolding ◌>>◌
  make amount job_id = do
    services.get_reineira_sdk
    escrow ← services.create amount job_id
    hash ← services.fund escrow amount
    pure (record {
      escrow_id = escrow.id;
      create_tx_hash = or_default escrow.create_tx "";
      fund_tx_hash = hash;
    })

  -- The end of the `try`, the `catch`, and the `finally`.
  abbrev pub settle_make : Result CreateEscrowResult → Hook W → Option CreateEscrowResult × Hook W
  settle_make (ok res) hook = (some res, record hook { loading = false; result = some res })
  settle_make (err e) hook = (
    none,
    record hook {
      loading = false;
      error = some (if text_truthy e then e else "Escrow creation failed");
    },
  )

  abbrev pub after_guards : Option String → ℕ → String → Hook W → Option CreateEscrowResult × Hook W
  unfolding make
  after_guards (some msg) amount job_id hook = (none, record hook { error = some msg })
  after_guards none amount job_id hook =
      let (r, w) = make amount job_id hook.world in
      settle_make r (record { world = w; loading = true; error = none; result = none })

  unfoldable pub create_escrow : Wallet → ℕ → String → Hook W → Option CreateEscrowResult × Hook W
  unfolding refusal make
  create_escrow wallet usdc_amount job_id hook =
      after_guards (refusal wallet usdc_amount job_id) usdc_amount job_id hook
