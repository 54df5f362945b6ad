-- ===== src/Scripts/Wrap/Redeemed.antt =====
-- What a wrap that came back has done.
use blindference.Prelude.{
  zero, suc, Result-cases, inl, inr, ℕ, String, ◌≡◌, ◌≢◌, ◌∙◌, ap, sym, subst, Option, none, some,
  ok, decimal, ◌<+>◌, arith,
}
use blindference.Async.{Async, lift, ◌>>=◌, ◌>>◌}
use blindference.Async.Laws.{>>=-inv, >>-inv}
use blindference.Scripts.{or_else, required}
use blindference.Scripts.Wrap.{
  positive, WrapArgs, WrapEnv, WrapSdk, Console, on, print, wrap_args, wrap_steps, wrap_usdc,
}

required-ok :
    (message : String) (o : Option String) (v : String) → required message o ≡ ok v → o ≡ some v
required-ok message none v h = ground arith
required-ok message (some s) v h = ground arith

positive-ok : (o : Option ℕ) (n : ℕ) → positive o ≡ ok n → (o ≡ some n) × (n ≢ 0)
positive-ok none n h = ground arith
positive-ok (some zero) n h = ground arith
positive-ok (some (suc m)) n h = ground arith

-- The arguments that were read are those that were given.
wrap_args-Read :
    (number : String → Option ℕ) (env : WrapEnv) (amount_arg : Option String) (args : WrapArgs)
    → wrap_args number env amount_arg ≡ ok args
    → (text : String) × (env.user_private_key_test ≡ some args.key)
      × (amount_arg ≡ some text)
      × (number text ≡ some args.usdc_amount)
      × (args.usdc_amount ≢ 0)
unfolding wrap_args
wrap_args-Read number env amount_arg args h =
    elim (Result-cases
      (required "Set USER_PRIVATE_KEY_TEST environment variable." env.user_private_key_test)) [
        | inr (e, k) ↦ ground arith
        | inl (key, k) ↦
            elim (Result-cases
              (required "Usage: npx ts-node scripts/wrap_usdc.ts <amountInUSDC>" amount_arg)) [
                | inr (e, t) ↦ ground arith
                | inl (text, t) ↦ elim (Result-cases (positive (number text))) [
                  | inr (e, p) ↦ ground arith
                  | inl (n, p) ↦
                      let same : record { key = key; usdc_amount = n } ≡ args = ground arith in
                      let (number_is, positive) = positive-ok (number text) n p in
                      subst
                        (λ (a : WrapArgs).
                          (text : String) × (env.user_private_key_test ≡ some a.key)
                          × (amount_arg ≡ some text)
                          × (number text ≡ some a.usdc_amount)
                          × (a.usdc_amount ≢ 0))
                        same
                        (
                          text,
                          required-ok _ env.user_private_key_test key k,
                          required-ok _ amount_arg text t,
                          number_is,
                          positive,
                        )
                ]
              ]
      ]

module _ {W : Type 0} (sdk : WrapSdk W) where
  -- An escrow for the owner was created, funded with the same amount, and redeemed, each from the
  -- state that the last call left.
  pub data Redeemed (usdc_amount : ℕ) (owner : String) : W → W → Type 0 where
    redeemed :
        (id : ℕ) (t u v w : W)
        → sdk.create (sdk.usdc usdc_amount) owner t ≡ (ok id, u)
        → sdk.fund id (sdk.usdc usdc_amount) u ≡ (ok tt, v)
        → sdk.redeem id v ≡ (ok tt, w)
        → Redeemed usdc_amount owner t w

  on-inv :
      {A : Type 0} (call : Async W A) (a : A) (c d : Console W)
      → on call c ≡ (ok a, d)
      → call c.world ≡ (ok a, d.world)
  on-inv call a c d h = ap (λ x. (x.0, x.1.world)) h

  print-inv :
      (line : String) (u : Unit {0}) (c d : Console W)
      → print line c ≡ (ok u, d)
      → c.world ≡ d.world
  print-inv line u c d h = ap (λ x. x.1.world) h

  abbrev last_line : ℕ → String → Async (Console W) (Unit {0})
  last_line usdc_amount owner =
      print ("Redeemed. " <+> decimal usdc_amount <+> " cUSDC is now in wallet " <+> owner)

  abbrev redeeming : ℕ → String → ℕ → Async (Console W) (Unit {0})
  redeeming usdc_amount owner id = on (sdk.redeem id) >> last_line usdc_amount owner

  abbrev funding : ℕ → String → ℕ → Async (Console W) (Unit {0})
  funding usdc_amount owner id =
      on (sdk.fund id (sdk.usdc usdc_amount))
      >> (print "Escrow funded." >> redeeming usdc_amount owner id)

  wrap_steps-Redeemed :
      (usdc_amount : ℕ) (owner : String) (c d : Console W)
      → wrap_steps sdk usdc_amount owner c ≡ (ok tt, d)
      → Redeemed usdc_amount owner c.world d.world
  unfolding wrap_steps
  wrap_steps-Redeemed usdc_amount owner c d h =
      let (id, c1, made, h1) =
        >>=-inv (on (sdk.create (sdk.usdc usdc_amount) owner))
          (λ id. print ("Escrow created: id=" <+> decimal id) >> funding usdc_amount owner id) c tt
          d h in
      let (u1, c2, told, h2) =
        >>-inv (print ("Escrow created: id=" <+> decimal id)) (funding usdc_amount owner id) c1 tt d
          h1 in
      let (u2, c3, paid, h3) =
        >>-inv (on (sdk.fund id (sdk.usdc usdc_amount)))
          (print "Escrow funded." >> redeeming usdc_amount owner id) c2 tt d h2 in
      let (u3, c4, said, h4) =
        >>-inv (print "Escrow funded.") (redeeming usdc_amount owner id) c3 tt d h3 in
      let (u4, c5, back, h5) =
        >>-inv (on (sdk.redeem id)) (last_line usdc_amount owner) c4 tt d h4 in
      let funded =
        ap (sdk.fund id (sdk.usdc usdc_amount))
          (print-inv ("Escrow created: id=" <+> decimal id) u1 c1 c2 told)
        ∙ on-inv (sdk.fund id (sdk.usdc usdc_amount)) u2 c2 c3 paid in
      let redeemed =
        ap (sdk.redeem id) (print-inv "Escrow funded." u3 c3 c4 said)
        ∙ on-inv (sdk.redeem id) u4 c4 c5 back in
      let end : c5.world ≡ d.world =
        print-inv ("Redeemed. " <+> decimal usdc_amount <+> " cUSDC is now in wallet " <+> owner) tt
          c5 d h5 in
      subst (λ x. Redeemed usdc_amount owner c.world x) end
        (Redeemed.redeemed id c.world c1.world c3.world c5.world
          (on-inv (sdk.create (sdk.usdc usdc_amount) owner) id c c1 made) funded redeemed)

  abbrev signing : WrapEnv → WrapArgs → Async (Console W) String
  signing env args =
      on (sdk.create_sdk args.key (or_else env.arbitrum_sepolia_rpc env.arbitrum_sepolia_rpc_url))

  abbrev wrapping : WrapArgs → String → Async (Console W) (Unit {0})
  wrapping args owner = print ("Using wallet: " <+> owner) >> wrap_steps sdk args.usdc_amount owner

  -- A run of the script that does not fail had a key, and an amount that reads as a number above 0; the
  -- SDK was created with that key, and from there an escrow for the address of its signer was created,
  -- funded with that amount and redeemed, with nothing of the chain's state between the calls.
  pub wrap_usdc-Redeemed :
      (number : String → Option ℕ) (env : WrapEnv) (amount_arg : Option String) (c d : Console W)
      → wrap_usdc sdk number env amount_arg c ≡ (ok tt, d)
      → (key text owner : String) × (n : ℕ) × (start : W) × (env.user_private_key_test ≡ some key)
        × (amount_arg ≡ some text)
        × (number text ≡ some n)
        × (n ≢ 0)
        × (sdk.create_sdk key
              (or_else env.arbitrum_sepolia_rpc env.arbitrum_sepolia_rpc_url)
              c.world
            ≡ (ok owner, start))
        × Redeemed n owner start d.world
  unfolding wrap_usdc lift
  wrap_usdc-Redeemed number env amount_arg c d h =
      let (args, c1, read, h1) = >>=-inv (lift (wrap_args number env amount_arg)) _ c tt d h in
      let (u1, c2, told, h2) =
        >>-inv (print ("Wrapping " <+> decimal args.usdc_amount <+> " USDC → cUSDC …"))
          (signing env args >>= wrapping args) c1 tt d h1 in
      let (owner, c3, started, h3) = >>=-inv (signing env args) (wrapping args) c2 tt d h2 in
      let (u2, c4, said, h4) =
        >>-inv (print ("Using wallet: " <+> owner)) (wrap_steps sdk args.usdc_amount owner) c3 tt d
          h3 in
      let (text, key_is, text_is, number_is, positive) =
        wrap_args-Read number env amount_arg args (ap (λ x. x.0) read) in
      let here : c.world ≡ c2.world =
        ap (λ x. x.1.world) read
        ∙ print-inv ("Wrapping " <+> decimal args.usdc_amount <+> " USDC → cUSDC …") u1 c1 c2
            told in
      let signed =
        ap (sdk.create_sdk args.key (or_else env.arbitrum_sepolia_rpc env.arbitrum_sepolia_rpc_url))
          here
        ∙ on-inv
            (sdk.create_sdk args.key
              (or_else env.arbitrum_sepolia_rpc env.arbitrum_sepolia_rpc_url))
            owner c2 c3 started in
      (
        args.key,
        text,
        owner,
        args.usdc_amount,
        c3.world,
        key_is,
        text_is,
        number_is,
        positive,
        signed,
        subst (λ x. Redeemed args.usdc_amount owner x d.world)
            (sym (print-inv ("Using wallet: " <+> owner) u2 c3 c4 said))
            (wrap_steps-Redeemed args.usdc_amount owner c4 d h4),
      )
