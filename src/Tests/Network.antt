-- ===== src/Tests/Network.antt =====
-- A network for the tests: each service answers the same every time, and counts its calls.
use blindference.Prelude.{
  ℕ, suc, ltb, if◌then◌else◌, true, [], ◌∷◌, ◌++◌, none, some, ok, err, replicate,
}
use blindference.Bytes.{Buffer}
use blindference.Http.{Response}
use blindference.Crypto.Toy.{zero_tag}
use blindference.Cofhe.{CofheClient, EncryptedItemInput}
use blindference.Sdk.Agent.{Agent, Services, Config, JobData, CreditBalance}

abbrev pub text : Buffer
text = 1 ∷ 2 ∷ 3 ∷ []

abbrev pub sealed : Buffer
sealed = replicate 12 0 ++ (zero_tag ++ text)

abbrev pub item : EncryptedItemInput
item = record { ct_hash = 77; security_zone = none; utype = 6; signature = "0x" }

abbrev pub client : CofheClient ℕ
client = record {
  encrypt_inputs = λ items n. (ok (item ∷ item ∷ []), suc n);
  get_or_create_self_permit = λ n. (ok (record { issuer = "0x1"; expiration = 5 }), suc n);
  remove_active_permit = λ n. (ok tt, suc n);
  decrypt_for_view = λ handle type permit n. (ok 5, suc n);
}

abbrev pub running : JobData
running = record { status = "RUNNING"; output_cid = none; result_hash = none }

abbrev pub completed : JobData
completed = record { status = "COMPLETED"; output_cid = some "cid"; result_hash = none }

abbrev pub balance : CreditBalance
balance = record {
  user_address = "0xu";
  balance_cusdc = 1;
  balance_blind = 2;
  total_deposited_cusdc = 1;
  total_deposited_blind = 2;
  total_spent_cusdc = 0;
  total_spent_blind = 0;
}

abbrev pub served : Response
served = record { is_ok = true; status = 200; status_text = "OK"; body = sealed }

abbrev pub services : JobData → Services ℕ
services job = record {
  address = "0xu";
  create_cofhe_client = some client;
  connect = λ c n. (ok tt, suc n);
  upload_prompt = λ blob n. (ok "cid", suc n);
  quorum_preview = λ request n. (ok tt, suc n);
  submit_job = λ submission n. (ok (some "job"), suc n);
  get_job = λ id n. (ok job, suc n);
  get_balance = λ id n. (ok balance, suc n);
  get_packages = λ n. (ok [], suc n);
  purchase_package = λ id hash n. (ok balance, suc n);
  base_fee_per_gas = λ n. (ok (some 10), suc n);
  estimate_max_priority_fee_per_gas = λ n. (err "no estimate", suc n);
  gas_price = λ n. (ok 9, suc n);
  write_contract = λ call n. (ok "0xhash", suc n);
  receipt_status = λ hash n. (ok "success", suc n);
  encrypted_key = λ store task n. (ok (7, 8), suc n);
  sleep = λ ms n. (ok tt, suc n);
  now = λ n. (ok 1000, suc n);
  fetch = λ url n. (ok served, suc n);
}

abbrev pub config : Config
config = record {
  private_key = "";
  payment_service_url = "http://localhost:8001";
  icl_url = "http://localhost:8000";
  ipfs_gateway = "https://ipfs.io/ipfs/";
  pinata_jwt = "";
  rpc_url = "";
  chain_id = 421614;
  prompt_key_store_address = "0xstore";
}

abbrev pub draws : ℕ → ℕ
draws i = 0

-- The Payment Service finds the job running at first.
abbrev pub slow : Services ℕ
slow = record (services running) {
  get_job = λ id n. (ok (if ltb n 3 then running else completed), suc n);
}

abbrev pub fresh : Agent ℕ
fresh = record { cofhe_client = none; world = 0 }
