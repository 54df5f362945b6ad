-- ===== src/Frontend/Reineira.antt =====
-- lib/reineiraSdk.ts: the fees of every transaction of the Reineira SDK, and the SDK that the module
-- keeps. The SDK, the signer of ethers and the provider are a record of actions; a signer is the wallet
-- that it signs for.
pub mod Fees
pub mod Cache
use blindference.Prelude.{
  ℕ, ◌+◌, ◌*◌, String, Bool, true, false, ltb, if◌then◌else◌, Option, none, some, or_default,
  Result, ok, err,
}
use blindference.Async.{Async, pure, try_catch, ◌>>=◌, ◌>>◌}

pub record SdkFees : Type 0 where
  pub max_fee_per_gas : ℕ
  pub max_priority_fee_per_gas : ℕ

abbrev pub fallback_fees : SdkFees
fallback_fees = record { max_fee_per_gas = 1000000000; max_priority_fee_per_gas = 2000000 }

-- `signer.provider`: the base fee of the latest block, and the priority fee of its fee data.
pub record Provider (W : Type 0) : Type 0 where
  pub base_fee_per_gas : Async W (Option ℕ)
  pub max_priority_fee_per_gas : Async W (Option ℕ)

-- A transaction, beside the fields that the patch sets.
pub record Transaction : Type 0 where
  pub to : String
  pub fees : Option SdkFees
  pub kind : Option ℕ

abbrev pub priority_of : Option ℕ → ℕ
priority_of none = 2000000
priority_of (some fee) = if ltb 0 fee then fee else 2000000

abbrev pub fees_above : ℕ → ℕ → SdkFees
fees_above base_fee priority_fee =
    if ltb 0 base_fee
    then record {
      max_fee_per_gas = base_fee * 10 + priority_fee + 1000000;
      max_priority_fee_per_gas = priority_fee;
    }
    else fallback_fees

module _ {W : Type 0} where
  -- The inner `try` and its `catch`.
  unfoldable pub priority : Provider W → Async W ℕ
  priority provider =
      try_catch (provider.max_priority_fee_per_gas >>= λ fee. pure (priority_of fee))
        (λ e. pure 2000000)

  -- The body of the outer `try`.
  unfoldable pub estimate : Provider W → Async W SdkFees
  unfolding priority
  estimate provider = do
    base_fee ← provider.base_fee_per_gas
    priority_fee ← priority provider
    pure (fees_above (or_default base_fee 0) priority_fee)

  unfoldable pub get_fee_params : Option (Provider W) → Async W SdkFees
  unfolding estimate
  get_fee_params none = pure fallback_fees
  get_fee_params (some provider) = try_catch (estimate provider) (λ e. pure fallback_fees)

  -- The `sendTransaction` that the patch puts in place of `original`.
  unfoldable pub patched_send :
      (Transaction → Async W String) → Option (Provider W) → Transaction → Async W String
  unfolding get_fee_params
  patched_send original provider tx = do
    gas ← get_fee_params provider
    original (record tx { fees = some gas; kind = some 2 })

-- An SDK, by the wallet whose signer it was created with.
pub record Sdk : Type 0 where
  pub signer : String

pub record SdkServices (W : Type 0) : Type 0 where
  pub wallet_client_to_signer : String → Async W String
  -- The CoFHE client is injected, where there is one.
  pub inject_cofhe : W → W
  pub initialize : Sdk → Async W (Unit {0})

-- The state of the module, and that of the services.
pub record SdkModule (W : Type 0) : Type 0 where
  pub world : W
  pub cached_sdk : Option Sdk

module _ {W : Type 0} (services : SdkServices W) where
  abbrev pub call : {A : Type 0} → Async W A → Async (SdkModule W) A
  call m s = let (r, w) = m s.world in (r, record s { world = w })

  abbrev pub inject : Bool → Async (SdkModule W) (Unit {0})
  inject has_cofhe s =
      (ok tt, record s { world = if has_cofhe then services.inject_cofhe s.world else s.world })

  abbrev pub keep : Sdk → Async (SdkModule W) Sdk
  keep sdk s = (ok sdk, record s { cached_sdk = some sdk })

  unfoldable pub create_sdk : String → Bool → Async (SdkModule W) Sdk
  unfolding ◌>>◌
  create_sdk wallet_client has_cofhe = do
    signer ← call (services.wallet_client_to_signer wallet_client)
    let sdk : Sdk = record { signer = signer }
    inject has_cofhe
    call (services.initialize sdk)
    keep sdk

  abbrev pub cached_or : Option Sdk → Async (SdkModule W) Sdk → Async (SdkModule W) Sdk
  cached_or none create = create
  cached_or (some sdk) create = pure sdk

  unfoldable pub get_reineira_sdk : String → Bool → Async (SdkModule W) Sdk
  unfolding create_sdk pure
  get_reineira_sdk wallet_client has_cofhe s =
      cached_or s.cached_sdk (create_sdk wallet_client has_cofhe) s

  unfoldable pub clear_reineira_sdk_cache : SdkModule W → SdkModule W
  clear_reineira_sdk_cache s = record s { cached_sdk = none }
