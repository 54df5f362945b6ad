-- ===== src/Frontend/Tokens.antt =====
-- How the web client moves tokens: the faucet (network/packages/frontend/src/hooks/useBlindFaucet.ts),
-- the packages of credits (pages/BuyCreditsPage.tsx) and the deposit (components/DepositModal.tsx).
-- An error is its message: the detail of an Axios error, or that of an `Error`. Addresses of contracts
-- come from the environment, and are arguments.
pub mod Faucet
pub mod Packages
pub mod Deposit
pub mod Outcomes
pub mod Notified
use blindference.Prelude.{
  String, Bool, not, ◌&&◌, ◌||◌, Option, some, truthy, if◌then◌else◌, text_truthy,
}

-- What a page finds of the wallet.
pub record Wallet : Type 0 where
  pub address : Option String
  pub has_wallet_client : Bool
  pub has_public_client : Bool

-- `address && walletClient && publicClient`
abbrev pub is_connected : Wallet → Bool
is_connected wallet =
    truthy wallet.address && (wallet.has_wallet_client && wallet.has_public_client)

-- `err.message || fallback`
abbrev pub message_or : String → String → String
message_or e fallback = if text_truthy e then e else fallback
