-- ===== src/Tests/Tokens.antt =====
-- The wrap, the faucet, the packages and the deposit at concrete inputs.
use blindference.Prelude.{
  ℕ, zero, suc, ◌+◌, ◌≡◌, refl, String, true, false, [], ◌∷◌, none, some, Result, ok, err,
}
use blindference.Async.{Async, ◌>>=◌, ◌>>◌}
use blindference.Frontend.Chain.{fee_params}
use blindference.Frontend.Wrap.{StepState, Escrow, WrapServices, Hook, wrap}
use blindference.Frontend.Wrap
use blindference.Frontend.Wrap.Steps.{statuses, Ended, wrap-Ended}
use blindference.Frontend.Tokens.{Wallet}
use blindference.Frontend.Tokens.Faucet.{Faucet}
use blindference.Frontend.Tokens.Packages
use blindference.Frontend.Tokens.Packages.{CreditPackage, Shop, handle_approve, handle_purchase}
use blindference.Frontend.Tokens.Deposit
use blindference.Frontend.Tokens.Deposit.{
  Token, DepositStatus, Modal, Deposits, Guard, guard_of, transfer, notify_loop, handle_deposit,
}
use blindference.Frontend.Tokens.Outcomes.{Purchased, handle_purchase-Purchased}
use blindference.Frontend.Tokens.Notified.{Missed, handle_deposit_told}
use blindference.Tests.Wallet.{Held, empty, chain}

-- The balance of USDC can be read so many times.
abbrev balance : ℕ → Result ℕ × ℕ
balance zero = (err "rate limited", zero)
balance (suc n) = (ok 100, n)

abbrev wrap_services : WrapServices ℕ
wrap_services = record {
  get_reineira_sdk = λ n. (ok tt, n);
  usdc = λ n. n;
  usdc_balance = λ n. balance n;
  cusdc_balance = λ n. (err "not readable", n);
  create = λ amount n. (ok (record { id = 9; create_tx = some "0xc" }), n);
  fund = λ escrow amount n. (ok (some "0xf"), n);
  fund_receipt = λ hash n. (err "timeout", n);
  redeem = λ escrow n. (ok (some "0xd"), n);
}

abbrev wrap_wallet : Wrap.Wallet
wrap_wallet = record { address = some "0x1"; has_clients = true; has_cofhe = true }

abbrev hook : ℕ → Hook ℕ
hook reads = record { world = reads; loading = false; error = none; success = none; steps = [] }

wraps :
    statuses (wrap wrap_services wrap_wallet 5 (hook 2)).steps
    ≡ StepState.done ∷ StepState.done ∷ StepState.done ∷ []
unfolding wrap
wraps = refl

-- The read of the balance behind the funding fails, and the escrow is not redeemed.
stops_funded :
    (statuses (wrap wrap_services wrap_wallet 5 (hook 1)).steps
      ≡ StepState.done ∷ StepState.done ∷ StepState.pending ∷ [])
    × ((wrap wrap_services wrap_wallet 5 (hook 1)).error ≡ some "rate limited")
unfolding wrap
stops_funded = (refl, refl)

wrap-Ended_example :
    ((wrap wrap_services wrap_wallet 5 (hook 1)).loading ≡ false)
    × Ended (wrap wrap_services wrap_wallet 5 (hook 1))
wrap-Ended_example = wrap-Ended wrap_services wrap_wallet 5 (hook 1) (unfold Wrap.refusal in refl)

abbrev wallet : Wallet
wallet = record { address = some "0x1"; has_wallet_client = true; has_public_client = true }

abbrev drip_time : Async Held ℕ
drip_time w = (ok 5, w)

abbrev faucet : Faucet Held
faucet = record {
  world = empty;
  loading = false;
  error = none;
  success = none;
  last_drip_time = none;
}

abbrev addresses : Packages.Addresses
addresses = record { blind_token = "0xb"; payment_wallet = "0xp" }

abbrev pkg : CreditPackage
pkg = record { id = "starter"; name = "Starter"; price_blind_wei = 1000 }

abbrev shop : Shop Held
shop = record { world = empty; approving = false; purchasing = none; error = none; success = none }

abbrev claim : String → String → Async Held String
claim id hash w = (ok "10", w)

buys :
    (handle_purchase chain addresses claim (λ w. w) wallet pkg shop).success
    ≡ some "Purchased Starter! Awarded 10 cUSDC-equivalent credits."
unfolding handle_purchase fee_params
buys = refl

handle_purchase-Purchased_example :
    let out = handle_purchase chain addresses claim (λ w. w) wallet pkg shop in
    (out.purchasing ≡ none) × Purchased chain addresses claim (λ w. w) pkg empty out
handle_purchase-Purchased_example =
    handle_purchase-Purchased chain addresses claim (λ w. w) wallet pkg shop
      (unfold Packages.refusal in refl)

-- The service misses so many notices; the clock counts the milliseconds in the second place.
abbrev notice : Held → Result (Unit {0}) × Held
notice (zero, waited, c, d) = (ok tt, (zero, waited, c, d))
notice (suc n, waited, c, d) = (err "not indexed", (n, waited, c, d))

abbrev deposits : Deposits Held
deposits = record {
  chain = chain;
  parse_units = λ amount decimals. ok 1000;
  notify_deposit = λ hash w. notice w;
  sleep = λ ms w. (w.0, w.1 + ms, w.2, w.3);
}

abbrev deposit_addresses : Deposit.Addresses
deposit_addresses = record { icl_wallet = "0xi"; blind_token = "0xb" }

abbrev modal : ℕ → Modal Held
modal misses = record { world = (misses, 0, 0, 0); status = DepositStatus.idle; error = none }

paid :
    (misses : ℕ)
    → transfer deposits deposit_addresses wallet "1" (misses, 0, 0, 0)
      ≡ (ok "0xhash", (misses, 0, 0, 0))
unfolding transfer fee_params ◌>>=◌ ◌>>◌
paid misses = refl

handle_deposit_told_example :
    handle_deposit deposits deposit_addresses wallet Token.blind "1" (modal 1)
    ≡ record { world = (0, 10000, 0, 0); status = DepositStatus.done; error = none }
handle_deposit_told_example =
    handle_deposit_told deposits deposit_addresses "0xhash" wallet "1" (modal 1) (1, 0, 0, 0)
      (unfold guard_of in refl) (paid 1) 1 3 (0, 10000, 0, 0) (0, 10000, 0, 0) refl
      (Missed.once_more 0 (1, 7000, 0, 0) (0, 7000, 0, 0) (0, 10000, 0, 0) "not indexed" refl
        (Missed.at_once (0, 10000, 0, 0)))
      refl

Missed-again :
    (n left waited : ℕ)
    → (w : Held) → Missed deposits deposit_addresses "0xhash" n (left, waited + 3000, 0, 0) w
    → Missed deposits deposit_addresses "0xhash" (suc n) (suc left, waited, 0, 0) w
Missed-again n left waited w more =
    Missed.once_more n (suc left, waited, 0, 0) (left, waited, 0, 0) w "not indexed" refl more
