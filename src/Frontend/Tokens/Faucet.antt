-- ===== src/Frontend/Tokens/Faucet.antt =====
-- hooks/useBlindFaucet.ts
use blindference.Prelude.{
  ℕ, String, Bool, true, false, not, ◌&&◌, truthy, if◌then◌else◌, Option, none, some, Result, ok,
  err, text_truthy,
}
use blindference.Async.{Async}
use blindference.Frontend.Chain.{Call, Chain, send}
use blindference.Frontend.Tokens.{Wallet, is_connected, message_or}

pub record Faucet (W : Type 0) : Type 0 where
  pub world : W
  pub loading : Bool
  pub error : Option String
  pub success : Option String
  pub last_drip_time : Option ℕ

module _ {W : Type 0} (read_drip_time : Async W ℕ) (faucet_address : String) where
  abbrev drip_time_of : Result ℕ → Option ℕ
  drip_time_of (ok time) = some time
  drip_time_of (err e) = none

  -- A read that fails forgets the time.
  unfoldable pub fetch_last_drip_time : Wallet → Faucet W → Faucet W
  fetch_last_drip_time wallet page =
      let (r, w) = read_drip_time page.world in
      if truthy wallet.address && (wallet.has_public_client && text_truthy faucet_address)
      then record page { world = w; last_drip_time = drip_time_of r }
      else page

  unfoldable pub refusal : Wallet → Option String
  refusal wallet =
      if not (is_connected wallet)
      then some "Connect your wallet first"
      else if not (text_truthy faucet_address)
      then some "Faucet address not configured"
      else none

  -- The end of the `try`, the `catch`, and the `finally`.
  unfoldable pub settle : Wallet → Result String → Faucet W → Faucet W
  unfolding fetch_last_drip_time
  settle wallet (ok hash) page =
      record (fetch_last_drip_time wallet
        (record page { success = some "BLIND tokens dripped successfully!" })) { loading = false }
  settle wallet (err e) page = record page {
    error = some (message_or e "Faucet drip failed");
    loading = false;
  }

  module _ (chain : Chain W) where
    unfoldable pub after_guards : Option String → Wallet → Faucet W → Faucet W
    unfolding send settle
    after_guards (some msg) wallet page = record page { error = some msg }
    after_guards none wallet page =
        let (r, w) =
          send chain (Call.drip faucet_address) "Faucet drip failed on-chain" page.world in
        settle wallet r (record page { world = w; loading = true; error = none; success = none })

    unfoldable pub drip : Wallet → Faucet W → Faucet W
    unfolding refusal after_guards
    drip wallet page = after_guards (refusal wallet) wallet page
