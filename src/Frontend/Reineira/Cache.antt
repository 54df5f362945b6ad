-- ===== src/Frontend/Reineira/Cache.antt =====
-- Which SDK is handed out.
use blindference.Prelude.{String, Bool, ◌≡◌, sym, ap, ◌∙◌, none, some, Result, ok, arith}
use blindference.Async.{Async, pure, ◌>>◌}
use blindference.Async.Laws.{>>=-inv}
use blindference.Frontend.Reineira.{
  Sdk, SdkServices, SdkModule, call, inject, keep, cached_or, create_sdk, get_reineira_sdk,
  clear_reineira_sdk_cache,
}

module _ {W : Type 0} (services : SdkServices W) where
  call-inv :
      {A : Type 0} (m : Async W A) (s s' : SdkModule W) (x : A)
      → call services m s ≡ (ok x, s')
      → m s.world ≡ (ok x, s'.world)
  call-inv m s s' x h = ap (λ p. (p.0, p.1.world)) h

  create_sdk-keeps :
      (wallet : String) (has_cofhe : Bool) (s s' : SdkModule W) (sdk : Sdk)
      → create_sdk services wallet has_cofhe s ≡ (ok sdk, s')
      → (w : W) × (services.wallet_client_to_signer wallet s.world ≡ (ok sdk.signer, w))
        × (s'.cached_sdk ≡ some sdk)
  unfolding create_sdk ◌>>◌
  create_sdk-keeps wallet has_cofhe s s' sdk h =
      let (signer, s1, signed, h1) =
        >>=-inv (call services (services.wallet_client_to_signer wallet)) _ s sdk s' h in
      let made : Sdk = record { signer = signer } in
      let (u, s2, injected, h2) =
        >>=-inv (inject services has_cofhe)
          (λ _. call services (services.initialize made) >> keep services made) s1 sdk s' h1 in
      let (u', s3, ready, h3) =
        >>=-inv (call services (services.initialize made)) (λ _. keep services made) s2 sdk s' h2 in
      let last : ◌≡◌ {A = Result Sdk × SdkModule W} (ok made, record s3 { cached_sdk = some made })
          (ok sdk, s') =
        h3 in
      let same : made ≡ sdk = ground arith in
      (
        s1.world,
        call-inv (services.wallet_client_to_signer wallet) s s1 signer signed
            ∙ ap (λ (x : Sdk). (ok x.signer, s1.world)) same,
        sym (ap (λ x. x.1.cached_sdk) h3) ∙ ap some same,
      )

  -- An SDK that was handed out is handed out again, to whatever wallet asks next; behind
  -- `clearReineiraSdkCache`, the SDK signs for the wallet that asks.
  pub get_reineira_sdk_again :
      (wallet other : String) (has_cofhe again : Bool) (s s' : SdkModule W) (sdk : Sdk)
      → get_reineira_sdk services wallet has_cofhe (clear_reineira_sdk_cache services s)
        ≡ (ok sdk, s')
      → (get_reineira_sdk services other again s' ≡ (ok sdk, s'))
        × ((w : W) × (services.wallet_client_to_signer wallet s.world ≡ (ok sdk.signer, w)))
  unfolding get_reineira_sdk clear_reineira_sdk_cache pure
  get_reineira_sdk_again wallet other has_cofhe again s s' sdk h =
      let (w, signed, kept) =
        create_sdk-keeps wallet has_cofhe (record s { cached_sdk = none }) s' sdk h in
      (ap (λ o. cached_or services o (create_sdk services other again) s') kept, (w, signed))
