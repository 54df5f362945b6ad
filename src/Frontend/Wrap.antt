-- ===== src/Frontend/Wrap.antt =====
-- `wrap` of network/packages/frontend/src/hooks/useWrapUSDC.ts, of a whole number of USDC. The Reineira
-- SDK and the reads of the balances are a record of actions; the reads serve the log alone, but one
-- that is not caught ends the wrap.
pub mod Steps
use blindference.Prelude.{
  ℕ, zero, suc, String, Bool, true, false, not, ◌||◌, ◌==◌, if◌then◌else◌, List, [], ◌∷◌, Option,
  none, some, Result, ok, err, text_truthy, truthy, decimal, ◌<+>◌,
}
use blindference.Async.{Async, pure, try_catch, ◌>>=◌, ◌>>◌}

pub data StepState : Type 0 where
  pending in_progress done error : StepState

pub record WrapStep : Type 0 where
  pub label : String
  pub status : StepState
  pub tx_hash : Option String

unfoldable pub initial_steps : List WrapStep
initial_steps =
    record { label = "Create unconditional escrow"; status = StepState.pending; tx_hash = none }
    ∷ record { label = "Approve & fund escrow"; status = StepState.pending; tx_hash = none }
    ∷ record { label = "Redeem escrow (receive cUSDC)"; status = StepState.pending; tx_hash = none }
    ∷ []

-- An unconditional escrow that the SDK has made, with the hash of its transaction.
pub record Escrow : Type 0 where
  pub id : ℕ
  pub create_tx : Option String

pub record WrapServices (W : Type 0) : Type 0 where
  pub get_reineira_sdk : Async W (Unit {0})
  -- `sdk.usdc(amount)`
  pub usdc : ℕ → ℕ
  pub usdc_balance : Async W ℕ
  pub cusdc_balance : Async W ℕ
  pub create : ℕ → Async W Escrow
  pub fund : Escrow → ℕ → Async W (Option String)
  pub fund_receipt : Option String → Async W String
  pub redeem : Escrow → Async W (Option String)

pub record Hook (W : Type 0) : Type 0 where
  pub world : W
  pub loading : Bool
  pub error : Option String
  pub success : Option String
  pub steps : List WrapStep

-- `next[index] = { ...next[index], status, txHash }`
unfoldable pub update_step : ℕ → StepState → Option String → List WrapStep → List WrapStep
update_step n status tx_hash [] = []
update_step zero status tx_hash (s ∷ steps) =
    record s { status = status; tx_hash = tx_hash } ∷ steps
update_step (suc n) status tx_hash (s ∷ steps) = s ∷ update_step n status tx_hash steps

abbrev pub is_in_progress : StepState → Bool
is_in_progress StepState.in_progress = true
is_in_progress _ = false

-- The first step in progress is marked as failed, where there is one.
unfoldable pub mark_error : List WrapStep → List WrapStep
mark_error [] = []
mark_error (s ∷ steps) =
    let rest = mark_error steps in
    if is_in_progress s.status then record s { status = StepState.error } ∷ steps else s ∷ rest

-- What the hook finds of the wallet.
pub record Wallet : Type 0 where
  pub address : Option String
  pub has_clients : Bool
  pub has_cofhe : Bool

unfoldable pub refusal : Wallet → ℕ → Option String
refusal wallet usdc_amount =
    if not (truthy wallet.address) || not wallet.has_clients
    then some "Connect your wallet first"
    else if not wallet.has_cofhe
    then some "CoFHE client not ready. Please wait a moment and try again."
    else if usdc_amount == 0
    then some "Amount must be greater than 0"
    else none

module _ {W : Type 0} where
  abbrev pub call : {A : Type 0} → Async W A → Async (Hook W) A
  call m hook = let (r, w) = m hook.world in (r, record hook { world = w })

  abbrev pub set_step : ℕ → StepState → Option String → Async (Hook W) (Unit {0})
  set_step n status tx_hash hook =
      (ok tt, record hook { steps = update_step n status tx_hash hook.steps })

  abbrev pub set_success : String → Async (Hook W) (Unit {0})
  set_success text hook = (ok tt, record hook { success = some text })

  module _ (services : WrapServices W) where
    abbrev pub look : {A : Type 0} → Async W A → Async (Hook W) (Unit {0})
    look m = call (try_catch (m >>= λ a. pure tt) (λ e. pure tt))

    -- The third step, and the end of the `try`.
    unfoldable pub redeem_escrow : ℕ → Escrow → Async (Hook W) (Unit {0})
    unfolding update_step ◌>>◌
    redeem_escrow usdc_amount escrow = do
      set_step 2 StepState.in_progress none
      hash ← call (services.redeem escrow)
      set_step 2 StepState.done hash
      look services.cusdc_balance
      set_success (decimal usdc_amount <+> " USDC wrapped to cUSDC successfully!")

    -- The second step: the escrow is funded.
    unfoldable pub fund_escrow : ℕ → Escrow → Async (Hook W) (Unit {0})
    unfolding update_step redeem_escrow ◌>>◌
    fund_escrow usdc_amount escrow = do
      set_step 1 StepState.in_progress none
      hash ← call (services.fund escrow (services.usdc usdc_amount))
      set_step 1 StepState.done hash
      call services.usdc_balance
      (if truthy hash then look (services.fund_receipt hash) else pure tt)
      redeem_escrow usdc_amount escrow

    -- The body of the `try`.
    unfoldable pub attempt : ℕ → Async (Hook W) (Unit {0})
    unfolding update_step fund_escrow ◌>>◌
    attempt usdc_amount = do
      call services.get_reineira_sdk
      call services.usdc_balance
      look services.cusdc_balance
      set_step 0 StepState.in_progress none
      escrow ← call (services.create (services.usdc usdc_amount))
      set_step 0 StepState.done escrow.create_tx
      fund_escrow usdc_amount escrow

  -- The `catch` and the `finally`.
  unfoldable pub settle : Result (Unit {0}) → Hook W → Hook W
  unfolding mark_error
  settle (ok u) hook = record hook { loading = false }
  settle (err e) hook = record hook {
    loading = false;
    error = some (if text_truthy e then e else "Wrap failed");
    steps = mark_error hook.steps;
  }

  module _ (services : WrapServices W) where
    abbrev pub after_guards : Option String → ℕ → Hook W → Hook W
    unfolding attempt settle initial_steps
    after_guards (some msg) usdc_amount hook = record hook { error = some msg }
    after_guards none usdc_amount hook =
        let (r, hook') = attempt services usdc_amount (record {
          world = hook.world;
          loading = true;
          error = none;
          success = none;
          steps = initial_steps;
        }) in
        settle r hook'

    unfoldable pub wrap : Wallet → ℕ → Hook W → Hook W
    unfolding refusal after_guards
    wrap wallet usdc_amount hook = after_guards (refusal wallet usdc_amount) usdc_amount hook
