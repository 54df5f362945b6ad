-- ===== src/Trading.antt =====
-- network/protocol/packages/examples-trading-signal-sdk/src (client.ts, types.ts): the client of the
-- insured trading signals. The contracts, the wallet and `decodeEventLog` are arguments.
pub mod Loss
pub mod Claims
use blindference.Prelude.{
  ℕ, zero, suc, ◌+◌, ◌-◌, ◌*◌, ◌/◌, String, Bool, not, leb, ltb, ◌==◌, str_eq, if◌then◌else◌, List,
  [], ◌∷◌, Option, none, some, Result, ok, err, decimal, ◌<+>◌, to_lower_case,
}
use blindference.Async.{Async, pure, throw, lift, throw_when, ◌>>=◌, ◌>>◌}

-- An int256 as viem reads it.
pub data ℤ : Type 0 where
  pos : ℕ → ℤ
  negsuc : ℕ → ℤ

pub data Direction : Type 0 where
  sell hold buy : Direction

unfoldable pub direction_label : Direction → String
direction_label Direction.sell = "SELL"
direction_label Direction.hold = "HOLD"
direction_label Direction.buy = "BUY"

pub record Signal : Type 0 where
  pub invocation_id : ℕ
  pub asset : String
  pub direction : Direction
  pub confidence_bps : ℕ
  pub price_at_issue : ℤ
  pub issued_at : ℕ
  pub valid_until : ℕ
  pub agent : String

pub record Coverage : Type 0 where
  pub buyer : String
  pub coverage_amount : ℕ
  pub escrow_id : ℕ
  pub purchased_at : ℕ
  pub claimed : Bool

pub record ContractAddresses : Type 0 where
  pub signal_attestor : String
  pub loss_underwriter : String
  pub price_oracle : String

pub record ClaimResult : Type 0 where
  pub tx_hash : String
  pub payout_amount : Option ℕ

abbrev pub loss_at : Direction → ℕ → ℕ → ℕ → ℕ
loss_at Direction.buy issue current tolerance =
    if leb issue current then 0 else (issue - current) * 10000 / issue
loss_at Direction.sell issue current tolerance =
    if leb current issue then 0 else (current - issue) * 10000 / issue
loss_at Direction.hold issue current tolerance =
    let abs_move = if leb issue current then current - issue else issue - current in
    let hold_move = abs_move * 10000 / issue in
    if ltb tolerance hold_move then hold_move - tolerance else 0

-- `priceAtIssue <= 0n || currentPrice <= 0n` gives 0. The tolerance is an amount of basis points, at
-- least 0.
unfoldable pub projected_loss_bps : Signal → ℤ → ℕ → ℕ
projected_loss_bps signal current tolerance = elim signal.price_at_issue [
  | negsuc n ↦ 0
  | pos issue ↦ elim current [
    | negsuc n ↦ 0
    | pos price ↦
        if issue == 0
        then 0
        else if price == 0
        then 0
        else loss_at signal.direction issue price tolerance
  ]
]

-- A log of a receipt; the body is what `decodeEventLog` reads.
pub record Log : Type 0 where
  pub address : String
  pub body : String

-- What `decodeEventLog` finds: the payout of a `ClaimPaid`, or another event.
pub data Event : Type 0 where
  claim_paid : ℕ → Event
  other_event : Event

module _ (decode : String → Result Event) (underwriter : String) where
  -- The payout that one log gives, if it is a `ClaimPaid` of the underwriter.
  abbrev pub paid_by : Log → Option ℕ
  paid_by log =
      if str_eq (to_lower_case log.address) (to_lower_case underwriter)
      then elim (decode log.body) [
        | ok event ↦ elim event [ claim_paid n ↦ some n | other_event ↦ none ]
        | err e ↦ none
      ]
      else none

  -- The first payout in the logs, in their order.
  unfoldable pub find_payout : List Log → Option ℕ
  find_payout [] = none
  find_payout (log ∷ logs) =
      let rest = find_payout logs in elim (paid_by log) [ some n ↦ some n | none ↦ rest ]

pub record Wallet : Type 0 where
  pub account : Option String

abbrev with_account : String → Wallet → Option String → Result Wallet
with_account op wallet none =
    err ("TradingSignalClient." <+> op <+> ": walletClient is missing an account")
with_account op wallet (some account) = ok wallet

unfoldable pub require_wallet : Option Wallet → String → Result Wallet
require_wallet none op =
    err ("TradingSignalClient." <+> op <+> " requires a walletClient — pass one in the constructor")
require_wallet (some wallet) op = with_account op wallet wallet.account

-- The contracts as the client reads and writes them.
pub record Contracts (W : Type 0) : Type 0 where
  pub signal_of : ℕ → Async W Signal
  pub coverage_of : ℕ → String → Async W Coverage
  -- `simulateContract` with its arguments, then `writeContract` of the request, from an account
  pub simulate_purchase :
      (account : Option String) (invocation_id amount escrow_id : ℕ) → Async W String
  pub simulate_claim : (account : Option String) (invocation_id : ℕ) → Async W String
  pub write : String → Async W String
  pub receipt_logs : String → Async W (List Log)

module _ {W : Type 0} (contracts : Contracts W) (decode : String → Result Event)
    (addresses : ContractAddresses) (wallet : Option Wallet) where
  unfoldable pub get_signal : ℕ → Async W Signal
  unfolding throw_when ◌>>◌
  get_signal invocation_id = do
    result ← contracts.signal_of invocation_id
    throw_when (result.issued_at == 0)
        ("Signal not found for invocation " <+> decimal invocation_id)
    pure result

  unfoldable pub get_coverage : ℕ → String → Async W Coverage
  unfolding throw_when ◌>>◌
  get_coverage invocation_id buyer = do
    result ← contracts.coverage_of invocation_id buyer
    throw_when (result.purchased_at == 0)
        ("No coverage purchased by " <+> buyer <+> " for invocation " <+> decimal invocation_id)
    pure result

  unfoldable pub purchase_coverage : ℕ → ℕ → ℕ → Async W String
  unfolding require_wallet
  purchase_coverage invocation_id amount escrow_id = do
    w ← lift (require_wallet wallet "purchaseCoverage")
    request ← contracts.simulate_purchase w.account invocation_id amount escrow_id
    contracts.write request

  unfoldable pub claim_loss : ℕ → Async W ClaimResult
  unfolding require_wallet find_payout
  claim_loss invocation_id = do
    w ← lift (require_wallet wallet "claimLoss")
    request ← contracts.simulate_claim w.account invocation_id
    tx_hash ← contracts.write request
    logs ← contracts.receipt_logs tx_hash
    pure (record {
      tx_hash = tx_hash;
      payout_amount = find_payout decode addresses.loss_underwriter logs;
    })
