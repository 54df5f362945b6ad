-- ===== src/Tests/Scripts.antt =====
-- The payment scripts at concrete inputs. The state counts the escrows.
use blindference.Prelude.{
  ℕ, ◌+◌, ◌≡◌, ◌≢◌, refl, String, List, [], ◌∷◌, none, some, ok, err, decimal,
}
use blindference.Scripts.{get, run_main}
use blindference.Scripts.Args.{dispute_args}
use blindference.Scripts.Escrow.{EscrowEnv, EscrowSdk, create_escrow}
use blindference.Scripts.Coverage.{CoverageEnv, CoverageSdk, purchase_insurance}
use blindference.Scripts.Wrap.{WrapEnv, WrapSdk, Console, wrap_usdc}
use blindference.Scripts.Wrap.Redeemed.{Redeemed, wrap_usdc-Redeemed}
use blindference.Scripts.Printed.{Printed, create_escrow-Printed}

abbrev sdk : EscrowSdk ℕ
sdk = record {
  create_sdk = λ key url w. (ok tt, w);
  usdc = λ n. n;
  encode_bytes32 = λ job_id. ok job_id;
  create = λ amount owner resolver policy w. (ok (w + 7), w + 1);
  fund = λ id amount w. (ok tt, w);
}

abbrev env : EscrowEnv
env = record {
  icl_wallet_private_key = some "0xk";
  arbitrum_sepolia_rpc = none;
  arbitrum_sepolia_rpc_url = some "https://rpc";
}

abbrev argv : List String
argv = "--amount" ∷ "1000" ∷ "--job-id" ∷ "0xab" ∷ "--owner" ∷ "0x1" ∷ "--resolver" ∷ "0x2" ∷ []

got : get "--owner" argv ≡ some "0x1"
unfolding get
got = refl

got_nothing : get "--owner" ("--owner" ∷ []) ≡ none
unfolding get
got_nothing = refl

printed :
    run_main (create_escrow sdk (λ s. 1000) env argv) 0
    ≡ (record { stdout = "7" ∷ []; code = 0 }, 1)
unfolding run_main create_escrow decimal
printed = refl

create_escrow-Printed_example :
    let out = run_main (create_escrow sdk (λ s. 1000) env argv) 0 in Printed sdk out.0 out.1
create_escrow-Printed_example = create_escrow-Printed sdk (λ s. 1000) env argv 0

-- A chain that refuses every dispute and every purchase.
abbrev refusing : CoverageSdk ℕ
refusing = record {
  create_sdk = λ key url w. (ok tt, w);
  initialize = λ w. (err "no network", w);
  dispute = λ id proof w. (err "reverted", w);
  purchase_coverage = λ request w. (err "reverted", w);
  now = λ w. 5000;
  encode_policy = λ amount job_id gate. ok "0x01";
  encode_price = λ amount. ok "0x02";
  keccak256 = λ text. 12;
}

abbrev keys : CoverageEnv
keys = record {
  own_private_key = none;
  private_key = some "0xk";
  arbitrum_sepolia_rpc = none;
  arbitrum_sepolia_rpc_url = none;
  inference_gate_address = none;
}

abbrev dispute_argv : List String
dispute_argv = "--coverage-id" ∷ "3" ∷ "--dispute-proof" ∷ "0x" ∷ []

parsed :
    dispute_args (λ s. ok 3) dispute_argv ≡ ok (record { coverage_id = 3; dispute_proof = "0x" })
unfolding dispute_args
parsed = refl

abbrev insurance_argv : List String
insurance_argv =
    "--escrow-id" ∷ "3" ∷ "--amount" ∷ "3" ∷ "--job-id" ∷ "0xab" ∷ "--policy-addr" ∷ "0x1"
    ∷ "--pool-addr" ∷ "0x2" ∷ []

mocked :
    (run_main (purchase_insurance refusing (λ s. ok 3) keys insurance_argv) 0).0
    ≡ record { stdout = "12" ∷ []; code = 0 }
unfolding run_main purchase_insurance decimal
mocked = refl

-- A wrap on a chain that takes every call.
abbrev wrap_sdk : WrapSdk ℕ
wrap_sdk = record {
  create_sdk = λ key url w. (ok "0x1", w);
  usdc = λ n. n;
  create = λ amount owner w. (ok 7, w + 1);
  fund = λ id amount w. (ok tt, w);
  redeem = λ id w. (ok tt, w);
}

abbrev wrap_env : WrapEnv
wrap_env = record {
  user_private_key_test = some "0xk";
  arbitrum_sepolia_rpc = none;
  arbitrum_sepolia_rpc_url = none;
}

abbrev empty_console : Console ℕ
empty_console = record { printed = []; world = 0 }

abbrev after_wrap : Console ℕ
after_wrap = (wrap_usdc wrap_sdk (λ s. some 5) wrap_env (some "5") empty_console).1

wraps : wrap_usdc wrap_sdk (λ s. some 5) wrap_env (some "5") empty_console ≡ (ok tt, after_wrap)
unfolding wrap_usdc
wraps = refl

wrap_usdc-Redeemed_example :
    (key text owner : String) × (n : ℕ) × (start : ℕ) × (some "0xk" ≡ some key)
    × (some "5" ≡ some text)
    × (some 5 ≡ some n)
    × (n ≢ 0)
    × (wrap_sdk.create_sdk key none 0 ≡ (ok owner, start))
    × Redeemed wrap_sdk n owner start after_wrap.world
wrap_usdc-Redeemed_example =
    wrap_usdc-Redeemed wrap_sdk (λ s. some 5) wrap_env (some "5") empty_console after_wrap wraps
