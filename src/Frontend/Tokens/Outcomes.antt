-- ===== src/Frontend/Tokens/Outcomes.antt =====
-- How the faucet and the purchase of a package end.
use blindference.Prelude.{
  ℕ, String, ◌≡◌, refl, ap, false, true, Option, none, some, is_some, Result, ok, err, Bool, arith,
}
use blindference.Async.{Async, continue, ◌>>=◌}
use blindference.Frontend.Chain.{Call, Chain, send}
use blindference.Frontend.Chain.Fees.{Confirmed, send-Confirmed}
use blindference.Frontend.Tokens.{Wallet}
use blindference.Frontend.Tokens.Faucet
use blindference.Frontend.Tokens.Faucet.{Faucet, drip, settle, after_guards, fetch_last_drip_time}
use blindference.Frontend.Tokens.Packages
use blindference.Frontend.Tokens.Packages.{
  CreditPackage, Shop, Addresses, pay_and_claim, settle_purchase, purchase_after, handle_purchase,
}

module _ {W : Type 0} (chain : Chain W) where
  module _ (read_drip_time : Async W ℕ) (faucet_address : String) where
    -- The two ends of a drip: a confirmed call of the faucet and success, or an error.
    pub data Dripped (w : W) (page : Faucet W) : Type 0 where
      dripped :
          (hash : String) (w' : W)
          → Confirmed chain (Call.drip faucet_address) hash w w'
          → is_some page.success ≡ true
          → page.error ≡ none
          → Dripped w page
      failed : page.success ≡ none → is_some page.error ≡ true → Dripped w page

    fetch_keeps :
        (wallet : Wallet) (page : Faucet W)
        → let fetched = fetch_last_drip_time read_drip_time faucet_address wallet page in
          (fetched.success ≡ page.success) × (fetched.error ≡ page.error)
    unfolding fetch_last_drip_time
    fetch_keeps wallet page = ground arith

    settle-Dripped :
        (wallet : Wallet) (r : Result String) (w w' : W) (time : Option ℕ)
        → send chain (Call.drip faucet_address) "Faucet drip failed on-chain" w ≡ (r, w')
        → let page : Faucet W = record {
          world = w';
          loading = true;
          error = none;
          success = none;
          last_drip_time = time;
        } in
          ((settle read_drip_time faucet_address wallet r page).loading ≡ false)
          × Dripped w (settle read_drip_time faucet_address wallet r page)
    unfolding settle
    settle-Dripped wallet (ok hash) w w' time h =
        let page : Faucet W = record {
          world = w';
          loading = true;
          error = none;
          success = some "BLIND tokens dripped successfully!";
          last_drip_time = time;
        } in
        let (kept, clean) = fetch_keeps wallet page in
        (
          refl,
          Dripped.dripped hash w' (send-Confirmed chain _ _ hash w w' h) (ap is_some kept) clean,
        )
    settle-Dripped wallet (err e) w w' time h = (refl, Dripped.failed refl refl)

    -- A drip that its guards let pass ends with the spinner off, and says that tokens came exactly
    -- where the faucet's transaction was confirmed on the chain; any failure shows an error.
    pub drip-Dripped :
        (wallet : Wallet) (page : Faucet W)
        → Faucet.refusal read_drip_time faucet_address wallet ≡ none
        → ((drip read_drip_time faucet_address chain wallet page).loading ≡ false)
          × Dripped page.world (drip read_drip_time faucet_address chain wallet page)
    unfolding drip after_guards
    drip-Dripped wallet page h =
        let out = send chain (Call.drip faucet_address) "Faucet drip failed on-chain" page.world in
        rw h (settle-Dripped wallet out.0 page.world out.1 page.last_drip_time refl)

  module _ (addresses : Addresses) (purchase : String → String → Async W String)
      (refresh : W → W) where
    -- The two ends of a purchase. The claim is made behind the confirmed transfer of the price, with
    -- its hash; where the transfer throws, no claim is made.
    pub data Purchased (pkg : CreditPackage) (w : W) (page : Shop W) : Type 0 where
      purchased :
          (hash awarded : String) (paid claimed : W)
          → Confirmed chain
              (Call.transfer addresses.blind_token addresses.payment_wallet pkg.price_blind_wei)
              hash
              w
              paid
          → purchase pkg.id hash paid ≡ (ok awarded, claimed)
          → page.world ≡ refresh claimed
          → is_some page.success ≡ true
          → page.error ≡ none
          → Purchased pkg w page
      unclaimed :
          (hash e : String) (paid : W)
          → Confirmed chain
              (Call.transfer addresses.blind_token addresses.payment_wallet pkg.price_blind_wei)
              hash
              w
              paid
          → purchase pkg.id hash paid ≡ (err e, page.world)
          → page.success ≡ none
          → is_some page.error ≡ true
          → Purchased pkg w page
      unpaid :
          (e : String)
          → send chain
              (Call.transfer addresses.blind_token addresses.payment_wallet pkg.price_blind_wei)
              "BLIND transfer failed on-chain"
              w
            ≡ (err e, page.world)
          → page.success ≡ none
          → is_some page.error ≡ true
          → Purchased pkg w page

    claimed-Purchased :
        (pkg : CreditPackage) (w paid w' : W) (hash : String) (approving : Bool) (r : Result String)
        → send chain
            (Call.transfer addresses.blind_token addresses.payment_wallet pkg.price_blind_wei)
            "BLIND transfer failed on-chain"
            w
          ≡ (ok hash, paid)
        → purchase pkg.id hash paid ≡ (r, w')
        → Purchased pkg w (
            settle_purchase chain addresses purchase refresh pkg r (record {
              world = w';
              approving = approving;
              purchasing = some pkg.id;
              error = none;
              success = none;
            }))
    unfolding settle_purchase
    claimed-Purchased pkg w paid w' hash approving (ok awarded) sent told =
        Purchased.purchased hash awarded paid w' (send-Confirmed chain _ _ hash w paid sent) told
          refl refl refl
    claimed-Purchased pkg w paid w' hash approving (err e) sent told =
        Purchased.unclaimed hash e paid (send-Confirmed chain _ _ hash w paid sent) told refl refl

    paid-Purchased :
        (pkg : CreditPackage) (w paid : W) (approving : Bool) (r : Result String)
        → send chain
            (Call.transfer addresses.blind_token addresses.payment_wallet pkg.price_blind_wei)
            "BLIND transfer failed on-chain"
            w
          ≡ (r, paid)
        → let out = continue r (λ hash. purchase pkg.id hash) paid in
          Purchased pkg w (
            settle_purchase chain addresses purchase refresh pkg out.0 (record {
              world = out.1;
              approving = approving;
              purchasing = some pkg.id;
              error = none;
              success = none;
            }))
    unfolding settle_purchase
    paid-Purchased pkg w paid approving (ok hash) sent =
        let told = purchase pkg.id hash paid in
        claimed-Purchased pkg w paid told.1 hash approving told.0 sent refl
    paid-Purchased pkg w paid approving (err e) sent = Purchased.unpaid e sent refl refl

    settle_purchase_rests :
        (pkg : CreditPackage) (r : Result String) (page : Shop W)
        → (settle_purchase chain addresses purchase refresh pkg r page).purchasing ≡ none
    unfolding settle_purchase
    settle_purchase_rests pkg (ok awarded) page = refl
    settle_purchase_rests pkg (err e) page = refl

    -- A purchase that its guards let pass ends with no purchase under way, in one of three ways: it
    -- was claimed with the hash of the confirmed transfer of its price to the payment wallet, and the
    -- page says so; or it was paid so, and the claim failed with an error; or the transfer threw, no
    -- claim was made, and an error is shown.
    pub handle_purchase-Purchased :
        (wallet : Wallet) (pkg : CreditPackage) (page : Shop W)
        → Packages.refusal addresses wallet ≡ none
        → let out = handle_purchase chain addresses purchase refresh wallet pkg page in
          (out.purchasing ≡ none) × Purchased pkg page.world out
    unfolding handle_purchase purchase_after pay_and_claim ◌>>=◌
    handle_purchase-Purchased wallet pkg page h =
        let sent =
          send chain
            (Call.transfer addresses.blind_token addresses.payment_wallet pkg.price_blind_wei)
            "BLIND transfer failed on-chain" page.world in
        rw h (
          settle_purchase_rests pkg _ _,
          paid-Purchased pkg page.world sent.1 page.approving sent.0 refl,
        )
