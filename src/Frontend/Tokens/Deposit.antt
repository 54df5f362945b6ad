-- ===== src/Frontend/Tokens/Deposit.antt =====
-- `handleDeposit` of components/DepositModal.tsx. `parseUnits`, the notice to the Payment Service and
-- the timer are arguments; that the parent refreshes and the modal closes 1.5 seconds behind a
-- deposit is not modelled.
use blindference.Prelude.{
  ℕ, zero, suc, String, not, ◌||◌, if◌then◌else◌, Option, none, some, Result, ok, err, truthy,
  text_truthy,
}
use blindference.Async.{Async, lift, ◌>>=◌, ◌>>◌}
use blindference.Frontend.Chain.{Call, Chain, write}
use blindference.Frontend.Tokens.{Wallet}

pub data Token : Type 0 where
  cusdc blind : Token

pub data DepositStatus : Type 0 where
  idle sending confirming done error : DepositStatus

pub record Modal (W : Type 0) : Type 0 where
  pub world : W
  pub status : DepositStatus
  pub error : Option String

pub record Deposits (W : Type 0) : Type 0 where
  pub chain : Chain W
  pub parse_units : String → ℕ → Result ℕ
  -- `creditsApi.notifyDeposit(txHash)`
  pub notify_deposit : String → Async W (Unit {0})
  -- `setTimeout(resolve, ms)`, which does not fail
  pub sleep : ℕ → W → W

pub record Addresses : Type 0 where
  pub icl_wallet : String
  pub blind_token : String

-- What the guards in front of the `try` do; the last one also moves the status.
pub data Guard : Type 0 where
  refused : String → Guard
  rejected : String → Guard
  passed : Guard

unfoldable pub guard_of : Addresses → Wallet → Token → Guard
guard_of addresses wallet token =
    if not (truthy wallet.address) || not wallet.has_wallet_client
    then Guard.refused "Connect your wallet first"
    else if not (text_truthy addresses.icl_wallet)
    then Guard.refused "ICL wallet address not configured"
    else elim token [
      | Token.cusdc ↦
          Guard.rejected
            "cUSDC is a confidential token and cannot be deposited via standard transfer. Please use the CLI wrap script (wrap_usdc.ts) to convert USDC to cUSDC."
      | Token.blind ↦ Guard.passed
    ]

module _ {W : Type 0} (services : Deposits W) (addresses : Addresses) where
  abbrev pub wait : ℕ → Async W (Unit {0})
  wait ms w = (ok tt, services.sleep ms w)

  -- One attempt, and where it fails and more are left, 3 seconds and the next one.
  abbrev pub retry : (Async W (Unit {0})) → Result (Unit {0}) → Async W (Unit {0})
  retry next (ok u) w = (ok tt, w)
  retry next (err e) w = next (services.sleep 3000 w)

  -- `left` attempts are allowed.
  unfoldable pub notify_loop : String → ℕ → Async W (Unit {0})
  notify_loop hash zero w = (ok tt, w)
  notify_loop hash (suc zero) w = services.notify_deposit hash w
  notify_loop hash (suc (suc left)) w =
      let (r, w') = services.notify_deposit hash w in
      let next = notify_loop hash (suc left) in retry next r w'

  -- The body of the `try` up to the signature: the two guards in it throw their message, which its
  -- `catch` shows just as they do.
  unfoldable pub transfer : Wallet → String → Async W String
  unfolding write
  transfer wallet amount = do
    value ← lift (services.parse_units amount 18)
    lift (
        if text_truthy addresses.blind_token
        then ok tt
        else err "BLIND token address not configured")
    lift (if wallet.has_public_client then ok tt else err "Public client not available")
    write services.chain (Call.transfer addresses.blind_token addresses.icl_wallet value)

  -- From the signature on: 7 seconds for the indexing, and 5 attempts to tell the service.
  unfoldable pub confirm : Result String → W → Result (Unit {0}) × W
  unfolding notify_loop
  confirm (err e) w = (err e, w)
  confirm (ok hash) w = notify_loop hash 5 (services.sleep 7000 w)

  abbrev pub settle : Result (Unit {0}) → Modal W → Modal W
  settle (ok u) modal = record modal { status = DepositStatus.done }
  settle (err e) modal = record modal { status = DepositStatus.error; error = some e }

  unfoldable pub after_guard : Guard → Wallet → String → Modal W → Modal W
  unfolding transfer confirm
  after_guard (Guard.refused msg) wallet amount modal = record modal { error = some msg }
  after_guard (Guard.rejected msg) wallet amount modal = record modal {
    error = some msg;
    status = DepositStatus.error;
  }
  after_guard Guard.passed wallet amount modal =
      let (sent, w) = transfer wallet amount modal.world in
      let (r, w') = confirm sent w in
      settle r (record modal { world = w'; status = DepositStatus.sending; error = none })

  unfoldable pub handle_deposit : Wallet → Token → String → Modal W → Modal W
  unfolding guard_of after_guard
  handle_deposit wallet token amount modal =
      after_guard (guard_of addresses wallet token) wallet amount modal
