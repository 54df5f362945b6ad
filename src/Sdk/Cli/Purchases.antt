-- ===== src/Sdk/Cli/Purchases.antt =====
-- What `buy-package` of the agent SDK reports.
use blindference.Prelude.{
  ℕ, String, ◌≡◌, refl, ap, str_eq, List, [], ◌∷◌, Option, none, some, find_first, Result, ok, err,
  ◌<+>◌, arith, subst,
}
use blindference.Bytes.{Buffer}
use blindference.Crypto.{Gcm}
use blindference.Async.{pure, ◌>>=◌, ◌>>◌, throw}
use blindference.Async.Laws.{>>=-inv}
use blindference.Sdk.Agent.{Config, Services, Call, CreditPackage}
use blindference.Sdk.Agent.Credits.{
  Currency, Purchase, token_of, default_payment_wallet, deposit, purchase_package, buy,
}
use blindference.Sdk.Cli.{
  CliEnv, Line, Report, key_of, missing_key, ended, account_config, purchase_lines, buy_with,
  buy_package_command,
}

-- A purchase, from one state to another: the package is on the list of the Payment Service, its price
-- is transferred, the receipt is waited for, and the transfer is claimed.
module _ {W : Type 0} (services : Services W) (id : String) where
  pub data Paid : Purchase → W → W → Type 0 where
    paid :
        (packages : List CreditPackage) (pkg : CreditPackage) (purchase : Purchase)
        (status : String) (t u v x y : W)
        → services.get_packages t ≡ (ok packages, u)
        → find_first (λ p. str_eq p.id id) packages ≡ some pkg
        → services.write_contract
            (Call.transfer (token_of Currency.blind) default_payment_wallet pkg.price_blind_wei)
            u
          ≡ (ok purchase.tx_hash, v)
        → services.receipt_status purchase.tx_hash v ≡ (ok status, x)
        → services.purchase_package id purchase.tx_hash x ≡ (ok purchase.balance, y)
        → Paid purchase t y

  -- A transfer that came back, and its receipt.
  abbrev Transferred : ℕ → String → W → W → Type 0
  Transferred amount hash u x =
      (status : String) × (v : W) × (services.write_contract
          (Call.transfer (token_of Currency.blind) default_payment_wallet amount) u
        ≡ (ok hash, v))
      × (services.receipt_status hash v ≡ (ok status, x))

  deposit-Transferred :
      (amount : ℕ) (hash : String) (u x : W)
      → deposit services amount Currency.blind u ≡ (ok hash, x)
      → Transferred amount hash u x
  unfolding deposit ◌>>◌ pure
  deposit-Transferred amount hash u x h =
      let (sent, v, wrote, h1) =
        >>=-inv
          (services.write_contract
            (Call.transfer (token_of Currency.blind) default_payment_wallet amount))
          (λ tx_hash. services.receipt_status tx_hash >>= λ _. pure tx_hash) u hash x h in
      let (status, v', mined, h2) =
        >>=-inv (services.receipt_status sent) (λ _. pure sent) v hash x h1 in
      let same : sent ≡ hash = ground arith in
      let whole : Transferred amount sent u v' = (status, v, wrote, mined) in
      subst (λ s. Transferred amount s u x) same
        (subst (λ w. Transferred amount sent u w) (ap (λ x. x.1) h2) whole)

  bought-Paid :
      (packages : List CreditPackage) (found : Option CreditPackage) (purchase : Purchase)
      (t u u' : W)
      → services.get_packages t ≡ (ok packages, u)
      → find_first (λ p. str_eq p.id id) packages ≡ found
      → buy services id found u ≡ (ok purchase, u')
      → Paid purchase t u'
  unfolding throw pure
  bought-Paid packages none purchase t u u' listed missing h = ground arith
  bought-Paid packages (some pkg) purchase t u u' listed there h =
      let (hash, x, sent, h1) =
        >>=-inv (deposit services pkg.price_blind_wei Currency.blind)
          (λ tx_hash. services.purchase_package id tx_hash >>= λ balance.
            pure (record { balance = balance; tx_hash = tx_hash }))
          u purchase u' h in
      let (balance, y, claimed, h2) =
        >>=-inv (services.purchase_package id hash)
          (λ balance. pure (record { balance = balance; tx_hash = hash })) x purchase u' h1 in
      let made : record { balance = balance; tx_hash = hash } ≡ purchase = ground arith in
      let (status, v, wrote, mined) = deposit-Transferred pkg.price_blind_wei hash u x sent in
      let whole =
        Paid.paid packages pkg (record { balance = balance; tx_hash = hash }) status t u v x y
          listed there wrote mined claimed in
      subst (λ p. Paid p t u') made
        (subst (λ w. Paid (record { balance = balance; tx_hash = hash }) t w) (ap (λ x. x.1) h2)
          whole)

  purchase_package-Paid :
      (purchase : Purchase) (u u' : W)
      → purchase_package services id u ≡ (ok purchase, u')
      → Paid purchase u u'
  unfolding purchase_package
  purchase_package-Paid purchase u u' h =
      let (packages, v, listed, h1) =
        >>=-inv services.get_packages
          (λ packages. buy services id (find_first (λ p. str_eq p.id id) packages)) u purchase u'
          h in
      bought-Paid packages _ purchase u v u' listed refl h1

module _ {W : Type 0} (g : Gcm) (size : g.Text → ℕ) (services : Config → Services W)
    (random_bytes : ℕ → Buffer) (draws : ℕ → ℕ) (env : CliEnv) (id : String)
    (payment_service rpc_url : Option String) where
  abbrev configured : String → Config
  configured key = account_config g size services random_bytes draws env payment_service rpc_url key

  abbrev purchasing : Line g.Text
  purchasing = Line.log ("Purchasing package \"" <+> id <+> "\"...")

  -- What `buy-package` prints, its exit code and the state that it leaves.
  pub data Bought (w : W) : Report g.Text → W → Type 0 where
    keyless : key_of env ≡ none → Bought w missing_key w
    claimed :
        (key : String) (purchase : Purchase) (w' : W)
        → key_of env ≡ some key
        → Paid (services (configured key)) id purchase w w'
        → Bought w
            (record {
              lines = purchasing ∷ purchase_lines g size services random_bytes draws env purchase;
              code = 0;
            })
            w'
    threw :
        (key e : String) (w' : W)
        → key_of env ≡ some key
        → purchase_package (services (configured key)) id w ≡ (err e, w')
        → Bought w (record { lines = purchasing ∷ Line.failure e ∷ []; code = 1 }) w'

  told_from :
      (key : String) (w w' : W) (answer : Result Purchase)
      → key_of env ≡ some key
      → purchase_package (services (configured key)) id w ≡ (answer, w')
      → Bought w
          (ended g size services
            (purchasing ∷ [])
            (purchase_lines g size services random_bytes draws env)
            answer)
          w'
  told_from key w w' (ok purchase) there h =
      Bought.claimed key purchase w' there
        (purchase_package-Paid (services (configured key)) id purchase w w' h)
  told_from key w w' (err e) there h = Bought.threw key e w' there h

  keyed_from :
      (key : Option String) (w : W)
      → key_of env ≡ key
      → let out =
          buy_with g size services random_bytes draws env id payment_service rpc_url key w in
        Bought w out.0 out.1
  keyed_from none w missing = Bought.keyless missing
  keyed_from (some key) w there =
      let answer = purchase_package (services (configured key)) id w in
      told_from key w answer.1 answer.0 there refl

  -- `buy-package` exits with 0 only where each of these calls went through, from the state that the
  -- last one left: the Payment Service lists the package, its price is transferred to the payment
  -- wallet, the receipt comes, and the transfer is claimed; it prints that transfer and the balance.
  -- Without a key, or where the purchase throws, it exits with 1 and its last line is that error.
  pub buy_package_command-Bought :
      (w : W)
      → let out =
          buy_package_command g size services random_bytes draws env id payment_service rpc_url w in
        Bought w out.0 out.1
  unfolding buy_package_command
  buy_package_command-Bought w = keyed_from (key_of env) w refl
