-- ===== src/Frontend/EscrowPage.antt =====
-- `handleCreate` of network/packages/frontend/src/pages/CreateEscrowPage.tsx. The Reineira SDK and
-- `Number` are arguments: an amount is a whole number, and `none` stands for NaN and what is below 0.
pub mod Ended
use blindference.Prelude.{
  ℕ, String, Bool, true, false, not, ◌||◌, ◌==◌, starts_with, if◌then◌else◌, Option, none, some,
  Result, ok, err, truthy, text_truthy, text_length, decimal, ◌<+>◌,
}
use blindference.Async.{Async, pure, lift, ◌>>=◌, ◌>>◌}
use blindference.Frontend.Escrow.{Escrow, Wallet}
use blindference.Frontend.Page.Flow.{trim}

pub record PageSdk (W : Type 0) : Type 0 where
  pub get_reineira_sdk : Async W (Unit {0})
  -- `sdk.usdc(amount)` and `encodeResolverData(['bytes32'], [jobId])`
  pub usdc : ℕ → ℕ
  pub encode_resolver_data : String → Result String
  -- of an amount and the resolver's data; the owner and the resolver are constants
  pub create : ℕ → String → Async W Escrow
  pub fund : Escrow → ℕ → Async W String

-- What is typed, what is shown, and the state of the services.
pub record EscrowPage (W : Type 0) : Type 0 where
  pub world : W
  pub amount : String
  pub job_id : String
  pub loading : Bool
  pub error : Option String
  pub success : Option String
  pub escrow_id : Option ℕ
  pub create_tx_hash : Option String
  pub fund_tx_hash : Option String

-- `isNaN(amount) || amount <= 0`
abbrev pub is_unpayable : Option ℕ → Bool
is_unpayable none = true
is_unpayable (some n) = n == 0

-- The first guard that fails.
unfoldable pub page_refusal : Wallet → Option ℕ → String → Option String
page_refusal wallet usdc_amount job_id =
    if not (truthy wallet.address) || not wallet.has_clients
    then some "Connect your wallet first"
    else if not wallet.has_cofhe
    then some "CoFHE client not ready. Please wait a moment and try again."
    else if is_unpayable usdc_amount
    then some "Amount must be greater than 0"
    else if not (text_truthy job_id)
        || (not (starts_with job_id "0x") || not (text_length job_id == 66))
    then some "Job ID must be a valid bytes32 hex string (0x + 64 characters)"
    else none

abbrev pub success_of : ℕ → String
success_of id = "Escrow #" <+> decimal id <+> " created and funded successfully!"

module _ {W : Type 0} (sdk : PageSdk W) where
  abbrev pub on : {A : Type 0} → Async W A → Async (EscrowPage W) A
  on call page = let (r, w) = call page.world in (r, record page { world = w })

  -- `setLoading(true)`, with everything of the last escrow cleared
  abbrev pub started : EscrowPage W → EscrowPage W
  started page = record {
    world = page.world;
    amount = page.amount;
    job_id = page.job_id;
    loading = true;
    error = none;
    success = none;
    escrow_id = none;
    create_tx_hash = none;
    fund_tx_hash = none;
  }

  abbrev pub show_created : Escrow → Async (EscrowPage W) (Unit {0})
  show_created escrow page =
      (ok tt, record page { escrow_id = some escrow.id; create_tx_hash = escrow.create_tx })

  abbrev pub show_funded : Escrow → String → Async (EscrowPage W) (Unit {0})
  show_funded escrow hash page =
      (ok tt, record page { fund_tx_hash = some hash; success = some (success_of escrow.id) })

  -- Behind the creation: the escrow is shown, funded, and shown as funded.
  unfoldable pub fund_created : ℕ → Escrow → Async (EscrowPage W) (Unit {0})
  unfolding ◌>>◌
  fund_created amount escrow = do
    show_created escrow
    hash ← on (sdk.fund escrow amount)
    show_funded escrow hash

  -- The body of the `try`.
  unfoldable pub create_and_fund : ℕ → String → Async (EscrowPage W) (Unit {0})
  unfolding fund_created ◌>>◌
  create_and_fund usdc_amount job_id = do
    on sdk.get_reineira_sdk
    data_ ← lift (sdk.encode_resolver_data job_id)
    escrow ← on (sdk.create (sdk.usdc usdc_amount) data_)
    fund_created (sdk.usdc usdc_amount) escrow

  -- The end of the `try`, the `catch`, and the `finally`.
  abbrev pub settle : Result (Unit {0}) → EscrowPage W → EscrowPage W
  settle (ok u) page = record page { loading = false }
  settle (err e) page = record page {
    loading = false;
    error = some (if text_truthy e then e else "Escrow creation failed");
  }

  abbrev pub after_guards : Option String → Option ℕ → String → EscrowPage W → EscrowPage W
  after_guards (some msg) usdc_amount job_id page = record page { error = some msg }
  after_guards none none job_id page = page
  after_guards none (some n) job_id page =
      let (r, page') = create_and_fund n job_id (started page) in settle r page'

  -- `none` as an amount is refused by the guards.
  unfoldable pub handle_create : (String → Option ℕ) → Wallet → EscrowPage W → EscrowPage W
  unfolding page_refusal trim create_and_fund
  handle_create number wallet page =
      let usdc_amount = number page.amount in
      let job_id = trim page.job_id in
      after_guards (page_refusal wallet usdc_amount job_id) usdc_amount job_id page
