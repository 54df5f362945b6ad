-- ===== src/Frontend/Tokens/Packages.antt =====
-- `handleApprove` and `handlePurchase` of pages/BuyCreditsPage.tsx. The balance that is refreshed
-- behind a purchase is that of useCredits.ts.
use blindference.Prelude.{
  ℕ, ◌-◌, ◌^◌, String, Bool, true, false, not, ◌||◌, if◌then◌else◌, Option, none, some, Result, ok,
  err, text_truthy, ◌<+>◌,
}
use blindference.Async.{Async, ◌>>=◌}
use blindference.Frontend.Chain.{Call, Chain, send}
use blindference.Frontend.Tokens.{Wallet, is_connected, message_or}

pub record CreditPackage : Type 0 where
  pub id : String
  pub name : String
  pub price_blind_wei : ℕ

pub record Shop (W : Type 0) : Type 0 where
  pub world : W
  pub approving : Bool
  pub purchasing : Option String
  pub error : Option String
  pub success : Option String

-- The token and the wallet of the Payment Service, from the environment.
pub record Addresses : Type 0 where
  pub blind_token : String
  pub payment_wallet : String

unfoldable pub refusal : Addresses → Wallet → Option String
refusal addresses wallet =
    if not (is_connected wallet)
    then some "Connect your wallet first"
    else if not (text_truthy addresses.blind_token) || not (text_truthy addresses.payment_wallet)
    then some "BLIND token or payment wallet not configured"
    else none

abbrev pub max_uint256 : ℕ
max_uint256 = 2 ^ 256 - 1

module _ {W : Type 0} (chain : Chain W) (addresses : Addresses) where
  unfoldable pub settle_approve : Result String → Shop W → Shop W
  settle_approve (ok hash) page = record page {
    success = some "BLIND approval successful! You can now purchase packages.";
    approving = false;
  }
  settle_approve (err e) page = record page {
    error = some (message_or e "Approval failed");
    approving = false;
  }

  unfoldable pub approve_after : Option String → Shop W → Shop W
  unfolding send settle_approve
  approve_after (some msg) page = record page { error = some msg }
  approve_after none page =
      let (r, w) =
        send chain (Call.approve addresses.blind_token addresses.payment_wallet max_uint256)
          "Approval failed on-chain" page.world in
      settle_approve r (record page { world = w; approving = true; error = none })

  unfoldable pub handle_approve : Wallet → Shop W → Shop W
  unfolding refusal approve_after
  handle_approve wallet page = approve_after (refusal addresses wallet) page

  -- `purchase` is `creditsApi.purchasePackage`: what it awards, as a text.
  module _ (purchase : String → String → Async W String) (refresh : W → W) where
    -- The transfer of the price, and the claim with its hash.
    unfoldable pub pay_and_claim : CreditPackage → Async W String
    unfolding send
    pay_and_claim pkg = do
      hash ←
          send chain
            (Call.transfer addresses.blind_token addresses.payment_wallet pkg.price_blind_wei)
            "BLIND transfer failed on-chain"
      purchase pkg.id hash

    unfoldable pub settle_purchase : CreditPackage → Result String → Shop W → Shop W
    settle_purchase pkg (ok awarded) page = record page {
      world = refresh page.world;
      success =
          some (
            "Purchased " <+> pkg.name <+> "! Awarded " <+> awarded
            <+> " cUSDC-equivalent credits.");
      purchasing = none;
    }
    settle_purchase pkg (err e) page = record page {
      error = some (message_or e "Purchase failed");
      purchasing = none;
    }

    unfoldable pub purchase_after : Option String → CreditPackage → Shop W → Shop W
    unfolding pay_and_claim settle_purchase
    purchase_after (some msg) pkg page = record page { error = some msg }
    purchase_after none pkg page =
        let (r, w) = pay_and_claim pkg page.world in
        settle_purchase pkg r
          (record page { world = w; purchasing = some pkg.id; error = none; success = none })

    unfoldable pub handle_purchase : Wallet → CreditPackage → Shop W → Shop W
    unfolding refusal purchase_after
    handle_purchase wallet pkg page = purchase_after (refusal addresses wallet) pkg page
