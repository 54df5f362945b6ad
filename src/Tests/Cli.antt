-- ===== src/Tests/Cli.antt =====
-- The commands of the agent SDK at concrete services.
use blindference.Prelude.{ℕ, ◌≡◌, refl, [], ◌∷◌, none, some, ok, length, false}
use blindference.Bytes.{Buffer}
use blindference.Crypto.Toy.{toy_gcm, zero_bytes}
use blindference.Sdk.Agent.{Config, Services}
use blindference.Sdk.Cli.{
  CliEnv, InferArgs, key_of, infer_command, buy_package_command, missing_key,
}
use blindference.Sdk.Cli.Reports.{Reported, infer_command-Reported}
use blindference.Sdk.Cli.Purchases.{Bought, buy_package_command-Bought}
use blindference.Tests.Network.{text, completed, services, draws}

abbrev env : CliEnv
env = record {
  blindference_private_key = some "";
  private_key = some "0xk";
  blindference_ipfs_gateway = none;
  ipfs_gateway = none;
}

abbrev keyless : CliEnv
keyless = record env { private_key = none }

abbrev connect : Config → Services ℕ
connect config = services completed

abbrev args : InferArgs Buffer
args = record {
  prompt = text;
  model = none;
  currency = none;
  insurance = false;
  network = record {
    payment_service = none;
    icl = none;
    ipfs_gateway = none;
    rpc_url = none;
    prompt_key_store = none;
  };
}

keyed : key_of env ≡ some "0xk"
unfolding key_of
keyed = refl

refused : infer_command toy_gcm length connect zero_bytes draws keyless args 3 ≡ (missing_key, 3)
unfolding infer_command key_of
refused = refl

infer_command-Reported_example :
    let out = infer_command toy_gcm length connect zero_bytes draws env args 0 in
    Reported toy_gcm length connect zero_bytes draws env args 0 out.0 out.1
infer_command-Reported_example =
    infer_command-Reported toy_gcm length connect zero_bytes draws env args 0

-- Services with one package on sale.
abbrev shop : Config → Services ℕ
shop config = record (services completed) {
  get_packages = λ n. (
    ok (
        record {
          id = "starter";
          name = "Starter";
          base_calls = 10;
          bonus_percent = 0;
          total_calls = 10;
          price_blind = 5;
          price_blind_wei = 5000;
        }
        ∷ []),
    n,
  );
}

buy_package_command-Bought_example :
    let out = buy_package_command toy_gcm length shop zero_bytes draws env "starter" none none 0 in
    Bought toy_gcm length shop zero_bytes draws env "starter" none none 0 out.0 out.1
buy_package_command-Bought_example =
    buy_package_command-Bought toy_gcm length shop zero_bytes draws env "starter" none none 0
