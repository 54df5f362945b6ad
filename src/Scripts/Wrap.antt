-- ===== src/Scripts/Wrap.antt =====
-- payment/scripts/wrap_usdc.ts. The state holds the lines that are printed, last first, beside that of the
-- services. `Number` is an argument: an amount is a whole number, and `none` stands for NaN and what is
-- below 0.
pub mod Redeemed
use blindference.Prelude.{
  ℕ, zero, suc, String, List, [], ◌∷◌, Option, none, some, Result, ok, err, decimal, ◌<+>◌,
}
use blindference.Async.{Async, pure, throw, lift, ◌>>=◌, ◌>>◌}
use blindference.Scripts.{required, or_else}

pub record WrapEnv : Type 0 where
  pub user_private_key_test : Option String
  pub arbitrum_sepolia_rpc : Option String
  pub arbitrum_sepolia_rpc_url : Option String

pub record WrapSdk (W : Type 0) : Type 0 where
  -- `ReineiraSDK.create`, and the address of its signer
  pub create_sdk : String → Option String → Async W String
  pub usdc : ℕ → ℕ
  pub create : ℕ → String → Async W ℕ
  pub fund : ℕ → ℕ → Async W (Unit {0})
  pub redeem : ℕ → Async W (Unit {0})

pub record Console (W : Type 0) : Type 0 where
  pub printed : List String
  pub world : W

-- What is left of the arguments that the script reads.
pub record WrapArgs : Type 0 where
  pub key : String
  pub usdc_amount : ℕ

abbrev pub positive : Option ℕ → Result ℕ
positive (some (suc n)) = ok (suc n)
positive _ = err "Amount must be a positive number (e.g. 5)"

unfoldable pub wrap_args : (String → Option ℕ) → WrapEnv → Option String → Result WrapArgs
wrap_args number env amount_arg =
    elim (required "Set USER_PRIVATE_KEY_TEST environment variable." env.user_private_key_test) [
      | err e ↦ err e
      | ok key ↦
          elim (required "Usage: npx ts-node scripts/wrap_usdc.ts <amountInUSDC>" amount_arg) [
            | err e ↦ err e
            | ok amount ↦ elim (positive (number amount)) [
              | err e ↦ err e
              | ok n ↦ ok (record { key = key; usdc_amount = n })
            ]
          ]
    ]

module _ {W : Type 0} where
  abbrev pub on : {A : Type 0} → Async W A → Async (Console W) A
  on call console = let (r, w) = call console.world in (r, record console { world = w })

  abbrev pub print : String → Async (Console W) (Unit {0})
  print line console = (ok tt, record console { printed = line ∷ console.printed })

  module _ (sdk : WrapSdk W) where
    -- Create, fund, redeem.
    unfoldable pub wrap_steps : ℕ → String → Async (Console W) (Unit {0})
    unfolding ◌>>◌
    wrap_steps usdc_amount owner = do
      id ← on (sdk.create (sdk.usdc usdc_amount) owner)
      print ("Escrow created: id=" <+> decimal id)
      on (sdk.fund id (sdk.usdc usdc_amount))
      print "Escrow funded."
      on (sdk.redeem id)
      print ("Redeemed. " <+> decimal usdc_amount <+> " cUSDC is now in wallet " <+> owner)

    unfoldable pub wrap_usdc :
        (String → Option ℕ) → WrapEnv → Option String → Async (Console W) (Unit {0})
    unfolding wrap_args wrap_steps ◌>>◌
    wrap_usdc number env amount_arg = do
      args ← lift (wrap_args number env amount_arg)
      print ("Wrapping " <+> decimal args.usdc_amount <+> " USDC → cUSDC …")
      owner ←
          on (
            sdk.create_sdk args.key (or_else env.arbitrum_sepolia_rpc env.arbitrum_sepolia_rpc_url))
      print ("Using wallet: " <+> owner)
      wrap_steps args.usdc_amount owner
