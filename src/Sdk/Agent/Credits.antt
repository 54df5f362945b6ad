-- ===== src/Sdk/Agent/Credits.antt =====
-- Credits of an agent (agent.ts): deposits, packages, balances.
use blindference.Prelude.{ℕ, String, str_eq, Option, none, some, find_first, or_text, ◌<+>◌}
use blindference.Async.{Async, pure, throw, ◌>>=◌, ◌>>◌}
use blindference.Sdk.Agent.{Services, Call, CreditBalance, CreditPackage}

abbrev pub default_payment_wallet : String
default_payment_wallet = "0x7F9B413Da50e72415b16Eb9df6e5E59774a338dc"

abbrev pub default_blind_token : String
default_blind_token = "0x232D5470DaaC7AD552a42d876aDEF1f778033cE0"

abbrev pub cusdc_token : String
cusdc_token = "0x42E47f9bA89712C317f60A72C81A610A2b68c48a"

pub data Currency : Type 0 where
  blind cusdc : Currency

abbrev pub token_of : Currency → String
token_of Currency.blind = default_blind_token
token_of Currency.cusdc = cusdc_token

pub record Purchase : Type 0 where
  pub balance : CreditBalance
  pub tx_hash : String

module _ {W : Type 0} (services : Services W) where
  unfoldable pub get_balance : Option String → Async W CreditBalance
  get_balance address = services.get_balance (or_text address services.address)

  -- The receipt is waited for, and its status is not read.
  unfoldable pub deposit : ℕ → Currency → Async W String
  unfolding ◌>>◌
  deposit amount_wei currency = do
    tx_hash ←
        services.write_contract
          (Call.transfer (token_of currency) default_payment_wallet amount_wei)
    services.receipt_status tx_hash
    pure tx_hash

  abbrev pub buy : String → Option CreditPackage → Async W Purchase
  buy package_id none = throw ("Package " <+> package_id <+> " not found")
  buy package_id (some pkg) = do
    tx_hash ← deposit pkg.price_blind_wei Currency.blind
    balance ← services.purchase_package package_id tx_hash
    pure (record { balance = balance; tx_hash = tx_hash })

  unfoldable pub purchase_package : String → Async W Purchase
  unfolding deposit
  purchase_package package_id = do
    packages ← services.get_packages
    buy package_id (find_first (λ p. str_eq p.id package_id) packages)
