-- ===== src/Tests/Wizard.antt =====
-- The text wizard, the Reineira SDK and the hooks of the client and the balance at concrete inputs.
use blindference.Prelude.{
  ℕ, suc, ◌≡◌, refl, String, Bool, true, false, List, [], ◌∷◌, ◌>>=◌, none, some, ok, err,
  length-replicate, arith,
}
use blindference.Bytes.{Buffer}
use blindference.Crypto.Toy.{toy_gcm, toy_web_crypto, zero_bytes}
use blindference.Async.{Async}
use blindference.Shared.Aes.{decrypt_blob}
use blindference.Frontend.PromptKey.{encrypt_prompt_key_for_text_request}
use blindference.Frontend.Page.Seal.{pack_payload}
use blindference.Frontend.Wizard.{
  ModelKey, text_model, SubmissionStage, WizardTurn, WizardServices, Wizard, WizardWallet,
  WizardDraws, encrypt_text, request_id_of,
}
use blindference.Frontend.Wizard.Sealed.{encrypt_text-decrypt_blob}
use blindference.Frontend.Wizard.Submit.{WizardConnection, handle_submit}
use blindference.Frontend.Reineira.{
  SdkFees, Provider, Transaction, patched_send, SdkServices, SdkModule, get_reineira_sdk,
  clear_reineira_sdk_cache,
}
use blindference.Frontend.Reineira.Fees.{Valid, TenTimes, patched_send-Valid}
use blindference.Frontend.CofheHook
use blindference.Frontend.CofheHook.Life.{Reach-Usable, late_connection}
use blindference.Frontend.Credits
use blindference.Frontend.Credits.Life.{Sound, Reach-Sound}
use blindference.Tests.Encryption.{flaky, key, text}

encrypt_text-decrypt_blob_example :
    (do
      payload ← encrypt_text toy_gcm toy_web_crypto zero_bytes text key
      decrypt_blob toy_gcm (pack_payload payload) key)
    ≡ ok text
encrypt_text-decrypt_blob_example =
    encrypt_text-decrypt_blob toy_gcm toy_web_crypto zero_bytes text key (λ n. length-replicate n 0)
      refl

abbrev services : WizardServices ℕ
services = record {
  quorum_preview = λ id n. (ok (record { leader = "0xa"; verifiers = "0xb" ∷ [] }), n);
  store_prompt_key = λ args n. (ok "0xtx", n);
  upload_prompt_blob = λ packed n. (ok (record { cid = some "cid"; text = "{}" }), n);
  submit_job = λ job n. (ok (record { job_id = some ""; request_id = some "r1" }), n);
  overdue = λ ms before after. false;
}

abbrev without : WizardServices ℕ
without = record services { quorum_preview = λ id n. (err "no nodes", n) }

abbrev connection : WizardConnection ℕ
connection = record {
  client = some flaky;
  is_ready = true;
  address = some "0x1";
  has_clients = true;
  store_address = some "0x2";
}

abbrev wallet : WizardWallet
wallet = record { address = "0x1"; store_address = "0x2" }

abbrev draws : WizardDraws
draws = record { key = key; task_bytes = 171 ∷ 5 ∷ [] }

-- The network behind the client has failed once already: the next calls succeed.
abbrev wizard : Wizard ℕ
wizard = record {
  world = 1;
  prompt = " hi ";
  error = none;
  stage = SubmissionStage.idle;
  encrypt_step = none;
  message_history = [];
  stored_history = none;
  location = "/";
}

abbrev fits : List WizardTurn → Bool
fits turns = true

abbrev write_out : List WizardTurn → String → Buffer
write_out turns prompt = text

abbrev submitted : WizardServices ℕ → Wizard ℕ
submitted s =
    handle_submit s 30000 fits (text_model ModelKey.qwen_7b) toy_gcm toy_web_crypto zero_bytes
      write_out draws connection wizard

opens_the_request :
    ((submitted services).location ≡ "/inference/r1")
    × ((submitted services).message_history ≡ record { role = "user"; content = "hi" } ∷ [])
unfolding handle_submit encrypt_text encrypt_prompt_key_for_text_request request_id_of
opens_the_request = (refl, refl)

stays_without_nodes :
    ((submitted without).location ≡ "/") × ((submitted without).message_history ≡ [])
unfolding handle_submit encrypt_text encrypt_prompt_key_for_text_request
stays_without_nodes = (refl, refl)

-- A provider whose fee data cannot be read.
abbrev provider : Provider ℕ
provider = record {
  base_fee_per_gas = λ n. (ok (some 100), n);
  max_priority_fee_per_gas = λ n. (err "not supported", n);
}

abbrev original : Transaction → Async ℕ String
original tx n = (ok "0xhash", suc n)

abbrev tx : Transaction
tx = record { to = "0x9"; fees = none; kind = none }

patched_send-Valid_example :
    (fees : SdkFees) × (v : ℕ) × (patched_send original (some provider) tx 0
      ≡ original (record tx { fees = some fees; kind = some 2 }) v)
    × Valid fees
    × ((base : ℕ) → (provider.base_fee_per_gas 0).0 ≡ ok (some base) → TenTimes base fees)
patched_send-Valid_example = patched_send-Valid provider 0 original tx

abbrev sdk_services : SdkServices ℕ
sdk_services = record {
  wallet_client_to_signer = λ wallet n. (ok wallet, n);
  inject_cofhe = λ n. suc n;
  initialize = λ sdk n. (ok tt, n);
}

abbrev sdk_module : SdkModule ℕ
sdk_module = record { world = 0; cached_sdk = some (record { signer = "0x7" }) }

abbrev filled : SdkModule ℕ
filled = record { world = 1; cached_sdk = some (record { signer = "0x1" }) }

first_sdk :
    get_reineira_sdk sdk_services "0x1" true (clear_reineira_sdk_cache sdk_services sdk_module)
    ≡ (ok (record { signer = "0x1" }), filled)
unfolding get_reineira_sdk clear_reineira_sdk_cache
first_sdk = refl

abbrev no_client : CofheHook.CofheHook
no_client = CofheHook.initial

abbrev stale : CofheHook.Life.Life
stale = record {
  hook = record { client = some "0x1"; is_ready = true; error = none };
  connecting = [];
}

Reach-Usable_example : CofheHook.Life.Usable stale
Reach-Usable_example =
    Reach-Usable {l = record { hook = no_client; connecting = [] }} (λ r. ground arith)
      (late_connection no_client "0x1" "0x2")

abbrev stream : Credits.Life.Life
stream = record {
  balance =
      Credits.on_message (some (record { balance_cusdc = some "5"; balance_blind = none }))
        Credits.initial;
  fetching = 0;
}

Reach-Sound_example : Sound stream
Reach-Sound_example =
    Reach-Sound {l = record { balance = Credits.initial; fetching = 0 }}
      (refl, refl, λ h. ground arith)
      (Credits.Life.Reach.next Credits.Life.Reach.here (
        Credits.Life.Step.message (record { balance = Credits.initial; fetching = 0 })
          (some (record { balance_cusdc = some "5"; balance_blind = none }))))
