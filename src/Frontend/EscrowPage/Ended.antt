-- ===== src/Frontend/EscrowPage/Ended.antt =====
-- How the creation of an escrow on its page ends.
use blindference.Prelude.{
  ℕ, String, ◌≡◌, false, Option, some, Result, ok, err, text_truthy, if◌then◌else◌,
}
use blindference.Async.{Async, ◌>>=◌}
use blindference.Frontend.Escrow.{Escrow, Wallet}
use blindference.Frontend.Page.Flow.{trim}
use blindference.Frontend.EscrowPage.{
  PageSdk, EscrowPage, page_refusal, success_of, on, started, fund_created, settle,
}

module _ {W : Type 0} (sdk : PageSdk W) (page : EscrowPage W) where
  abbrev message : String → String
  message e = if text_truthy e then e else "Escrow creation failed"

  -- The SDK is there, and the resolver's data is encoded for the job id that was typed.
  abbrev pub Encoded : String → W → Type 0
  Encoded resolver_data t =
      (sdk.get_reineira_sdk page.world ≡ (ok tt, t))
      × (sdk.encode_resolver_data (trim page.job_id) ≡ ok resolver_data)

  -- Why no escrow was made, and the state of then.
  pub data Unmade (n : ℕ) : String → W → Type 0 where
    without_sdk : (e : String) (t : W) → sdk.get_reineira_sdk page.world ≡ (err e, t) → Unmade n e t
    unencoded :
        (e : String) (t : W)
        → sdk.get_reineira_sdk page.world ≡ (ok tt, t)
        → sdk.encode_resolver_data (trim page.job_id) ≡ err e
        → Unmade n e t
    uncreated :
        (resolver_data e : String) (t u : W)
        → Encoded resolver_data t
        → sdk.create (sdk.usdc n) resolver_data t ≡ (err e, u)
        → Unmade n e u

  -- The escrow of `n` was made, from the state that the SDK left.
  abbrev pub Made : ℕ → Escrow → W → Type 0
  Made n escrow u =
      (resolver_data : String) × (t : W) × Encoded resolver_data t
      × (sdk.create (sdk.usdc n) resolver_data t ≡ (ok escrow, u))

  -- The page behind `handleCreate` of an amount: refused by a guard, which leaves all but the error as
  -- it was; or with no escrow and an error, where none was made; or with the escrow that was made and
  -- could not be funded, and an error; or with the one that was made and funded with the same amount,
  -- and a success.
  pub data Ended (wallet : Wallet) (usdc_amount : Option ℕ) : EscrowPage W → Type 0 where
    refused :
        (msg : String)
        → page_refusal wallet usdc_amount (trim page.job_id) ≡ some msg
        → Ended wallet usdc_amount (record page { error = some msg })
    unmade :
        (n : ℕ) (e : String) (w : W)
        → usdc_amount ≡ some n
        → Unmade n e w
        → Ended wallet usdc_amount
            (record (started sdk page) { world = w; loading = false; error = some (message e) })
    unfunded :
        (n : ℕ) (e : String) (escrow : Escrow) (u w : W)
        → usdc_amount ≡ some n
        → Made n escrow u
        → sdk.fund escrow (sdk.usdc n) u ≡ (err e, w)
        → Ended wallet usdc_amount (record (started sdk page) {
          world = w;
          loading = false;
          error = some (message e);
          escrow_id = some escrow.id;
          create_tx_hash = escrow.create_tx;
        })
    funded :
        (n : ℕ) (hash : String) (escrow : Escrow) (u w : W)
        → usdc_amount ≡ some n
        → Made n escrow u
        → sdk.fund escrow (sdk.usdc n) u ≡ (ok hash, w)
        → Ended wallet usdc_amount (record (started sdk page) {
          world = w;
          loading = false;
          success = some (success_of escrow.id);
          escrow_id = some escrow.id;
          create_tx_hash = escrow.create_tx;
          fund_tx_hash = some hash;
        })

  -- The page in the middle of `handleCreate`.
  abbrev at : W → EscrowPage W
  at w = record (started sdk page) { world = w }

  module _ (wallet : Wallet) (n : ℕ) where
    abbrev Settles : Result (Unit {0}) × EscrowPage W → Type 0
    Settles out = Ended wallet (some n) (settle sdk out.0 out.1)

    abbrev creating : String → Async (EscrowPage W) (Unit {0})
    creating resolver_data =
        on sdk (sdk.create (sdk.usdc n) resolver_data) >>= fund_created sdk (sdk.usdc n)
