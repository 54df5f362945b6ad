-- ===== src/Scripts.antt =====
-- network/packages/payment/scripts: create_escrow.ts, purchase_insurance.ts and file_dispute.ts, which the
-- services run as subprocesses and whose standard output they read, and wrap_usdc.ts, which is run by
-- hand; network/packages/icl/scripts and network/scripts hold copies. The Reineira SDK, the encodings of
-- ethers, `Number` and `BigInt` of a text are arguments. What goes to the standard error is not modelled.
pub mod Args
pub mod Escrow
pub mod Coverage
pub mod Printed
pub mod Insured
pub mod Wrap
use blindference.Prelude.{
  ℕ, String, Bool, str_eq, if◌then◌else◌, List, [], ◌∷◌, Option, none, some, Result, ok, err,
  truthy,
}
use blindference.Async.{Async}

-- `args[args.indexOf(flag) + 1]`, where the flag is there and something follows it.
abbrev following : List String → Option String
following [] = none
following (value ∷ rest) = some value

unfoldable pub get : String → List String → Option String
get flag [] = none
get flag (arg ∷ rest) =
    let later = get flag rest in if str_eq arg flag then following rest else later

-- A missing or empty value ends the script.
abbrev pub required : String → Option String → Result String
required message none = err message
required message (some value) = if truthy (some value) then ok value else err message

-- `a || b`
abbrev pub or_else : Option String → Option String → Option String
or_else a b = if truthy a then a else b

-- What the caller sees of a script: the lines of its standard output, and its exit code.
pub record Exit : Type 0 where
  pub stdout : List String
  pub code : ℕ

abbrev pub exit_of : Result (List String) → Exit
exit_of (ok lines) = record { stdout = lines; code = 0 }
exit_of (err e) = record { stdout = []; code = 1 }

-- `main().catch(… process.exit(1))`; the scripts print nothing before their last line.
unfoldable pub run_main : {W : Type 0} → Async W (List String) → W → Exit × W
run_main main w = let (r, w') = main w in (exit_of r, w')
