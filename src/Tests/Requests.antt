-- ===== src/Tests/Requests.antt =====
-- Inferences, purchases and requests of the agent SDK at concrete services.
use blindference.Prelude.{ℕ, suc, ◌≡◌, refl, true, String, [], none, some, ok, err, length, truthy}
use blindference.Bytes.{Buffer}
use blindference.Crypto.Toy.{toy_gcm, zero_bytes}
use blindference.Sdk.Encryption.{
  encrypt_aes_gcm, pack_aes_payload, split_key_for_cofhe, generate_aes_key, unpack_aes_payload,
  decrypt_aes_gcm,
}
use blindference.Bytes.Hex.{big_int_hex, to_hex, parse_hex_from, hex_digit_value, hex_digit}
use blindference.Sdk.Ipfs.{download_from_ipfs}
use blindference.Sdk.Agent.{Agent, Services, init_cofhe}
use blindference.Sdk.Agent.Opening.{open_packed}
use blindference.Sdk.Agent.Jobs.{InferOptions, InferenceResult, generate_task_id, infer, poll_round}
use blindference.Sdk.Agent.Outcomes.{Final, infer-Final}
use blindference.Sdk.Client.{
  ClientServices, StatusData, InferenceResult as ClientResult, EncryptedPayload, status_round,
  submit_encrypted_inference,
}
use blindference.Sdk.Client.Requests.{Closed, submit_encrypted_inference-Closed}
use blindference.Sdk.Server.{Reply, InferBody, Field, post_infer}
use blindference.Tests.Network.{text, client, completed, balance, services, config, draws, fresh}

abbrev options : InferOptions Buffer
options = record {
  prompt = text;
  prompt_length = 3;
  model_id = none;
  currency = none;
  insurance = none;
}

abbrev answer : InferenceResult Buffer
answer = record {
  job_id = "job";
  task_id = generate_task_id draws;
  status = "COMPLETED";
  output = some text;
  output_cid = some "cid";
  commitment_hash = none;
}

infer_runs :
    infer (services completed) toy_gcm config zero_bytes draws none none options fresh
    ≡ (ok answer, record { cofhe_client = some client; world = 17 })
unfolding infer init_cofhe encrypt_aes_gcm split_key_for_cofhe pack_aes_payload download_from_ipfs
    open_packed poll_round generate_aes_key big_int_hex to_hex parse_hex_from hex_digit_value
    hex_digit unpack_aes_payload decrypt_aes_gcm
infer_runs = refl

infer-Final_example : Final (services completed) toy_gcm config zero_bytes draws none none answer
infer-Final_example =
    infer-Final (services completed) toy_gcm config zero_bytes draws none none options fresh
      (record { cofhe_client = some client; world = 17 }) answer infer_runs

-- Services whose wallet does not connect.
abbrev offline : Services ℕ
offline = record (services completed) { connect = λ c n. (err "no network", suc n) }

abbrev reverting : Services ℕ
reverting = record (services completed) { receipt_status = λ hash n. (ok "reverted", suc n) }

abbrev answer_of : String → StatusData
answer_of status = record {
  status = status;
  task_id = none;
  job_id = some "task";
  output_cid = some "cid";
  commitment_hash = none;
}

-- A network whose state does not change.
abbrev icl : String → ClientServices (Unit {0})
icl status = record {
  address = "0xu";
  quorum_preview = λ request n. (ok (record { leader = "0xl"; verifiers = [] }), n);
  submit_request = λ request n. (ok (record { request_id = some "r"; job_id = none }), n);
  request_status = λ id n. (ok (answer_of status), n);
  health = λ n. (ok tt, n);
  get_balance = λ id n. (ok balance, n);
  get_packages = λ n. (ok [], n);
  purchase_package = λ id hash n. (ok balance, n);
  write_contract = λ call n. (ok "0xhash", n);
  receipt_status = λ hash n. (ok "success", n);
  sleep = λ ms n. (ok tt, n);
}

disputed_round : status_round (icl "DISPUTED") "r" tt ≡ (ok (answer_of "DISPUTED"), tt)
unfolding status_round
disputed_round = refl

abbrev payload : EncryptedPayload
payload = record {
  task_id = "task";
  prompt_cid = "cid";
  encrypted_prompt_key = ("1", "2");
  model_id = none;
  payment_mode = none;
  payment_currency = none;
  source = none;
}

abbrev accepted : ClientResult
accepted = record {
  request_id = "r";
  task_id = some "task";
  status = "COMPLETED";
  output_cid = some "cid";
  commitment_hash = none;
}

submit_runs : submit_encrypted_inference (icl "accepted") payload none tt ≡ (ok accepted, tt)
unfolding submit_encrypted_inference
submit_runs = refl

submit_encrypted_inference-Closed_example : Closed accepted × (truthy (some "r") ≡ true)
submit_encrypted_inference-Closed_example =
    submit_encrypted_inference-Closed (icl "accepted") payload none tt tt accepted submit_runs

abbrev body : InferBody Buffer
body = record { prompt = Field.text text; model_id = none; currency = none; insurance = none }

abbrev size : Buffer → ℕ
size t = length t

abbrev posted : Reply Buffer × Agent ℕ
posted = post_infer (services completed) toy_gcm size config zero_bytes draws none none body fresh
